-- ===== src/Gateway/BothPaths.antt =====
-- The two ways of an event (backend/src/websocket/telemetryHandler.ts): to the stream of the session, for
-- the inference, and to the buffer of the database, for the retraining.
use zk_auth.Prelude.{
  ℕ, suc, ◌+◌, ◌≤◌, ◌≡◌, refl, sym, ap, ◌∙◌, subst, arith, Bool, true, false, ◌||◌, Bool-cases,
  Option-cases, inl, inr, Option, none, some, List, [], ◌∷◌, ◌++◌, map, length, if◌then◌else◌,
}
use zk_auth.Stores.{Journal}
use zk_auth.Telemetry
use zk_auth.Telemetry.{Telemetry, all_fit, buffer_event, act, run}
use zk_auth.Telemetry.Laws.{known, arriving, onto, known-run}
use zk_auth.Gateway.{StreamEntry, max_queue, send_to, write_event, write_stream}
use zk_auth.Gateway.Backpressure.{event, signal_all, events_of, taken, IsFlowing, taken-signal_all}
use zk_auth.Gateway.Messages.{
  Frame, malformed_json, null_json, no_type, ping, unknown_type, behavior_event, BehaviorEvent,
  pong, Line, is_valid_behavior_event, handle_behavior_event, on_frame,
}

-- The contents of the valid events among some frames.
abbrev pub valid_events : List Frame → List ℕ
valid_events [] = []
valid_events (behavior_event (some e) ∷ fs) =
    if is_valid_behavior_event e then e.content ∷ valid_events fs else valid_events fs
valid_events (_ ∷ fs) = valid_events fs

abbrev pub is_null : Frame → Bool
is_null null_json = true
is_null _ = false

abbrev pub has_null : List Frame → Bool
has_null [] = false
has_null (f ∷ fs) = is_null f || has_null fs

events_of-map : (es : List ℕ) → events_of (map event es) ≡ es
events_of-map [] = refl
events_of-map (e ∷ es) = ap (λ l. e ∷ l) (events_of-map es)

module _ (J : Journal ℕ) (fits : ℕ → Bool) (accepts : ℕ → Bool) (session ws : ℕ) where
  -- One frame after the other, up to one that brings the server down.
  abbrev pub on_frames : List Frame → Line J fits → Option (Line J fits)
  on_frames [] l = some l
  on_frames (f ∷ fs) l = elim (on_frame J fits accepts session ws f l) [
    | none ↦ none
    | some l' ↦ on_frames fs l'
  ]

  abbrev arrivals : List ℕ → List (Telemetry.Action J fits)
  arrivals es = map (λ e. Telemetry.event e) es

  arriving-map :
      (up : (s : Journal.State J) → Journal.down J s ≡ false) (es : List ℕ)
      → arriving J fits up (arrivals es) ≡ es
  arriving-map up [] = refl
  arriving-map up (e ∷ es) = ap (λ l. e ∷ l) (arriving-map up es)

  abbrev Carried : List ℕ → StreamEntry ℕ → Line J fits → Option (Line J fits) → Type 0
  Carried es s l none = ⊥
  Carried es s l (some l') =
      (l'.gateway.streams session ≡ some (signal_all accepts (map event es) s))
      × (l'.telemetry ≡ run J fits (arrivals es) l.telemetry)

  abbrev heard : BehaviorEvent → Line J fits → Line J fits
  heard e l = record {
    state = record { last_seq_num = e.sequence_num; event_count = suc l.state.event_count };
    gateway = write_stream accepts session e.content l.gateway;
    telemetry = buffer_event J fits e.content l.telemetry;
  }

  glue :
      (fs : List Frame) (s : StreamEntry ℕ) (l : Line J fits) (es es' : List ℕ)
      (l1 l2 : Line J fits)
      → es ≡ es'
      → l1 ≡ l2
      → Carried es' s l (on_frames fs l2)
      → Carried es s l (on_frames fs l1)
  glue fs s l es es' l1 l2 p q t = rw (p, q) t

  frames_lem :
      (fs : List Frame) (l : Line J fits) (s : StreamEntry ℕ)
      → l.gateway.streams session ≡ some s
      → has_null fs ≡ false
      → Carried (valid_events fs) s l (on_frames fs l)
  unfolding on_frame handle_behavior_event act
  frames_lem [] l s open_stream h = (open_stream, refl)
  frames_lem (malformed_json ∷ fs) l s open_stream h = frames_lem fs l s open_stream h
  frames_lem (null_json ∷ fs) l s open_stream h = absurd (ground (arith, h))
  frames_lem (no_type ∷ fs) l s open_stream h = frames_lem fs l s open_stream h
  frames_lem (unknown_type ∷ fs) l s open_stream h = frames_lem fs l s open_stream h
  frames_lem (behavior_event none ∷ fs) l s open_stream h = frames_lem fs l s open_stream h
  frames_lem (ping ∷ fs) l s open_stream h =
      frames_lem fs (record l { gateway = (send_to (some ws) pong l.gateway).1 }) s
        (ground (arith, open_stream)) h
  frames_lem (behavior_event (some e) ∷ fs) l s open_stream h =
      elim (Bool-cases (is_valid_behavior_event e)) [
        | inl valid ↦
            glue fs s l (valid_events (behavior_event (some e) ∷ fs)) (e.content ∷ valid_events fs)
              (handle_behavior_event J fits accepts session (some e) l) (heard e l) (rw valid refl)
              (rw valid refl)
              (frames_lem fs (heard e l) (write_event accepts e.content s)
                (ground (arith, open_stream)) h)
        | inr invalid ↦
            glue fs s l (valid_events (behavior_event (some e) ∷ fs)) (valid_events fs)
              (handle_behavior_event J fits accepts session (some e) l) l (rw invalid refl)
              (rw invalid refl) (frames_lem fs l s open_stream h)
      ]

  -- Every valid event of a session with a stream takes both ways, in the order of its arrival, and
  -- nothing else does: while the database answers and takes the rows of the events, and the queue of
  -- the stream has room for them, the valid events among any frames, none of which is the text `null`,
  -- are added to what the stream has taken and to what the database and its buffer have.
  pub both_paths :
      (up : (s : Journal.State J) → Journal.down J s ≡ false) (fs : List Frame) (l : Line J fits)
      (s : StreamEntry ℕ)
      → l.gateway.streams session ≡ some s
      → IsFlowing s
      → length s.pending_queue + length (valid_events fs) ≤ max_queue
      → has_null fs ≡ false
      → all_fit fits l.telemetry.buffer ≡ true
      → all_fit fits (valid_events fs) ≡ true
      → (l' : Line J fits) × (s' : StreamEntry ℕ) × (on_frames fs l ≡ some l')
        × (l'.gateway.streams session ≡ some s')
        × (taken s' ≡ taken s ++ valid_events fs)
        × (known J fits up l'.telemetry ≡ onto (valid_events fs) (known J fits up l.telemetry))
  both_paths up fs l s open_stream flowing room no_null held arriving_fit =
      let es : List ℕ = valid_events fs in
      let carried_all = frames_lem fs l s open_stream no_null in
      elim (Option-cases (on_frames fs l)) [
        | inl stopped ↦
            let crashed : Carried es s l none = rw stopped at carried_all in absurd crashed
        | inr (l', e) ↦
            let (stream, stored) : Carried es s l (some l') = rw e at carried_all in
            let same = arriving-map up es in
            (
              l',
              signal_all accepts (map event es) s,
              e,
              stream,
              taken-signal_all accepts (map event es) s flowing (
                    subst (λ q. length s.pending_queue + length q ≤ max_queue)
                      (sym (events_of-map es)) room)
                  ∙ ap (λ q. taken s ++ q) (events_of-map es),
              ap (known J fits up) stored
                  ∙ known-run J fits up (arrivals es) l.telemetry held
                      (subst (λ q. all_fit fits q ≡ true) (sym same) arriving_fit)
                  ∙ ap (λ q. onto q (known J fits up l.telemetry)) same,
            )
      ]
