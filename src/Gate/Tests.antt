-- ===== src/Gate/Tests.antt =====
-- The access gate with two sessions, one of them owning a renewal job.
use rootwell.Gate.Evicts.{Evicts, issue_session_terminates}
use rootwell.Prelude.{
  ℕ, ◌+◌, ◌*◌, ◌≤◌, ◌<◌, ◌≡◌, refl, true, false, not, ◌&&◌, none, some, [], ◌∷◌, arith, ◌==◌,
  if◌then◌else◌, length,
}
use rootwell.Clock.{Instant, minute, hour, day}
use rootwell.Gate.Attempts.{Tries, Tries_bounds}
use rootwell.Gate.{
  allow_attempt, recent, Session, Job, Gate, find, forget_session, current_session, max_sessions,
  new_session, issue_session, remove,
}
use rootwell.Gate.Sessions.{
  current_session_sound, current_session_refuses, forget_session_ends, renewal_over, watch_over,
  preview_over,
}
use rootwell.Gate.Issued.{issue_session_bounds}

abbrev noon : Instant
noon = 737_500 * day

abbrev session : Session
session = record {
  setup = false;
  expires = noon + hour;
  revision = 5;
  inventory_ready = false;
  data_key = [];
  installation_id = [];
}

abbrev job : Job
job = record { owner = 7; state = "running"; reason = "none"; next = noon; cancelled = false }

abbrev gate : Gate
gate = record {
  sessions = (7, session) ∷ (8, session) ∷ [];
  attempts = [];
  renewal = some job;
  watch = none;
  preview = some 7;
  monitor = "ready";
}

admitted_now : current_session gate (some 7) (some 5) noon ≡ (some session, gate)
unfolding current_session find
admitted_now = refl

refused_later : current_session gate (some 7) (some 6) noon ≡ (none, forget_session gate 7)
unfolding current_session find
refused_later = refl

current_session_sound_example :
    (id : ℕ) × (some 7 ≡ some id)
    × (find id gate.sessions ≡ some session)
    × (some 5 ≡ some session.revision)
    × (noon < session.expires)
    × (gate ≡ gate)
current_session_sound_example =
    current_session_sound gate gate (some 7) (some 5) noon session admitted_now

current_session_refuses_example :
    (find 7 (forget_session gate 7).sessions ≡ none)
    × (find 8 (forget_session gate 7).sessions ≡ find 8 gate.sessions)
current_session_refuses_example =
    current_session_refuses gate (forget_session gate 7) 7 8 (some 6) noon refused_later
      (omega arith)

forget_session_ends_example :
    (find 7 (forget_session gate 7).sessions ≡ none)
    × (find 8 (forget_session gate 7).sessions ≡ find 8 gate.sessions)
    × (renewal_over 7 (forget_session gate 7).renewal ≡ true)
    × (watch_over 7 (forget_session gate 7).watch ≡ true)
    × (preview_over 7 (forget_session gate 7).preview ≡ true)
forget_session_ends_example = forget_session_ends gate 7 8 (omega arith)

issue_session_bounds_example :
    (length (issue_session gate 9 true 5 [] [] noon).sessions ≤ max_sessions)
    × (find 9 (issue_session gate 9 true 5 [] [] noon).sessions
        ≡ some (new_session true 5 [] [] noon))
    × ((new_session true 5 [] [] noon).expires ≡ noon + (if true then 15 * minute else 12 * hour))
    × ((new_session true 5 [] [] noon).inventory_ready
        ≡ (not true && length {A = ℕ} [] == 32 && length {A = ℕ} [] == 16))
issue_session_bounds_example = issue_session_bounds gate 9 true 5 [] [] noon

-- The gate after one allowed attempt.
abbrev tried : Gate
tried = record gate { attempts = noon ∷ [] }

attempt_allowed : allow_attempt gate noon ≡ (true, tried)
unfolding allow_attempt recent
attempt_allowed = refl

Tries_bounds_example : length (recent (noon + 1) (noon ∷ [])) ≤ 5
Tries_bounds_example =
    Tries_bounds (noon ∷ []) noon (noon + 1)
      (Tries.allowed noon (Tries.start {g = gate} refl) (omega arith) attempt_allowed) (omega arith)

issue_session_terminates_example :
    (roomy : Gate) × Evicts gate roomy
    × (length roomy.sessions < max_sessions)
    × (issue_session gate 9 true 5 [] [] noon
        ≡ record roomy { sessions = (9, new_session true 5 [] [] noon) ∷ remove 9 roomy.sessions })
issue_session_terminates_example = issue_session_terminates gate 9 true 5 [] [] noon
