-- ===== src/Link/Alignment.antt =====
-- src/link.rs: a normal alignment from power-on to service.
use mtp.Base.{
  none, ◌+◌, ◌≤◌, ◌<◌, ◌≡◌, sym, ◌∙◌, ap, arith, false, List, [], ◌∷◌, ◌++◌, some, u32_max,
}
use mtp.SignalUnit.Header.{SuHeader}
use mtp.SignalUnit.Status.{StatusIndication}
use mtp.SignalUnit.Unit.{fisu, lssu}
use mtp.Monitor.Aerm.{restart}
use mtp.Monitor.Aerm
use mtp.Link.Types.{Mtp2State}
use mtp.Link.Config.{Mtp2Config}
use mtp.Link.Engine.{Mtp2Link, new, emit, stop_all_timers, enter_proving, enter_in_service}
use mtp.Link.Manage.{begin}
use mtp.Link.Manage
use mtp.Link.Lssu.{upgrade, from_not_aligned, from_aligned, lssu_at, handle_lssu}
use mtp.Link.Traffic.{fisu_or_msu_at, handle_fisu_or_msu}
use mtp.Link.Inbound.{dispatch, monitor, handle_su}
use mtp.Link.Run.{Call, step, run, run-Inv, run-append}
use mtp.Link.Proving.{Occurrence, calls, ticks, errors, IsProving, proving_ends}
use mtp.Link.Service.{process-suerm}

-- A link is started, and the peer sends SIO and SIN.
abbrev pub opening : SuHeader → List Call
opening h =
    Call.start
    ∷ Call.handle_su (lssu h StatusIndication.out_of_alignment false)
    ∷ Call.handle_su (lssu h StatusIndication.normal_alignment false)
    ∷ []

opening-fields :
    (config : Mtp2Config) (h : SuHeader)
    → config.emergency ≡ false
    → let l = run (opening h) (new config) in
      (l.state ≡ Mtp2State.proving)
      × (l.t4 ≡ some config.t4_proving_normal)
      × (l.aerm.count ≡ 0)
      × (l.aerm.threshold ≡ config.aerm_threshold_normal)
      × (l.local_processor_outage ≡ false)
unfolding run step new Manage.start begin stop_all_timers handle_su monitor dispatch handle_lssu
    lssu_at upgrade from_not_aligned from_aligned enter_proving restart Aerm.new
opening-fields config h e = ground arith

ready-serves :
    (h : SuHeader) (l : Mtp2Link)
    → l.state ≡ Mtp2State.aligned_ready
    → (handle_su (fisu h) l).state ≡ Mtp2State.in_service
unfolding handle_su monitor dispatch handle_fisu_or_msu fisu_or_msu_at enter_in_service emit
ready-serves h l s = ground (arith, process-suerm h none (enter_in_service l))

-- A new link without emergency that is started aligns with a peer that sends SIO, then SIN, and in
-- the end a FISU: when the ticks of T4 are over, of which there is at least one, with fewer errors
-- than the AERM's threshold, a `u32`, and whatever SINs and polls between them, the link goes into
-- service.
pub alignment_serves :
    (config : Mtp2Config) (h : SuHeader) (es : List Occurrence)
    → config.emergency ≡ false
    → ticks es + 1 ≡ config.t4_proving_normal
    → errors es < config.aerm_threshold_normal
    → config.aerm_threshold_normal ≤ u32_max
    → (run (opening h ++ calls es ++ (Call.tick ∷ Call.handle_su (fisu h) ∷ [])) (new config)).state
      ≡ Mtp2State.in_service
alignment_serves config h es e time few fits =
    let l = run (opening h) (new config) in
    let (state, t4, count, threshold, local) = opening-fields config h e in
    let p : IsProving (ticks es + 1) (errors es) false l = record {
      inv = run-Inv config (opening h);
      state = state;
      timer = t4 ∙ ap some (sym time);
      bears = omega (arith, count, threshold, few);
      cap = omega (arith, threshold, fits);
      local = local;
    } in
    let l' = run (calls es) l in
    let ready : (step Call.tick l').state ≡ Mtp2State.aligned_ready =
      (proving_ends es false l p).1 in
    let served : (run (Call.tick ∷ Call.handle_su (fisu h) ∷ []) l').state ≡ Mtp2State.in_service =
      unfold run step in ready-serves h (step Call.tick l') ready in
    ap (λ k. k.state)
      (run-append (opening h) (calls es ++ (Call.tick ∷ Call.handle_su (fisu h) ∷ [])) (new config))
    ∙ ap (λ k. k.state) (run-append (calls es) (Call.tick ∷ Call.handle_su (fisu h) ∷ []) l)
    ∙ served
