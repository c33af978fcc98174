-- ===== src/Gate.antt =====
-- cmd/rootwelld/gate.go: the sessions of the access gate, with the jobs and the preview that a
-- session owns, and the record of password attempts. A session is kept under the digest of its
-- token; the list of sessions is the order in which the map is walked.
mod Tests
pub mod Sessions
pub mod Issued
pub mod Evicts
pub mod Attempts
use rootwell.Prelude.{
  ℕ, zero, suc, ◌+◌, ◌-◌, ◌*◌, ◌/◌, ◌%◌, ◌^◌, ◌≤◌, ◌<◌, min, max, String, ◌≡◌, refl, sym, ap, subst,
  ◌∙◌, ◌≢◌, ◌↔◌, ◌⊎◌, inl, inr, Bool, true, false, not, ◌&&◌, ◌||◌, Option, none, some, List, [],
  ◌∷◌, ◌++◌, map, arith, ltb, leb, ◌==◌, if◌then◌else◌, Bool-cases, Option-cases, length, get_elem?,
  get_elem?-set_self, set, all, length-append, if-true, if-false, str_eq, eq_iff, eq_refl, tests,
}
use rootwell.Prelude.Bytes.{Bytes}
use rootwell.Clock.{Instant, minute, hour}

-- `session`; an erased array is the empty one.
pub record Session : Type 0 where
  pub setup : Bool
  pub expires : Instant
  pub revision : ℕ
  pub inventory_ready : Bool
  pub data_key : Bytes
  pub installation_id : Bytes

-- `renewalJob`, as far as the gate changes it; `cancelled` says whether its context is cancelled.
pub record Job : Type 0 where
  pub owner : ℕ
  pub state : String
  pub reason : String
  pub next : Instant
  pub cancelled : Bool

-- `timingWatch`, as far as the gate changes it.
pub record Watch : Type 0 where
  pub owner : ℕ
  pub state : String
  pub reason : String
  pub recovery : String
  pub next : Instant
  pub cancelled : Bool

-- `gate`; `preview` is the session of the registration preview and `monitor` the observed status.
pub record Gate : Type 0 where
  pub sessions : List (ℕ × Session)
  pub attempts : List Instant
  pub renewal : Option Job
  pub watch : Option Watch
  pub preview : Option ℕ
  pub monitor : String

-- `g.sessions[id]` and `delete(g.sessions, id)`
pub find : ℕ → List (ℕ × Session) → Option Session
find id [] = none
find id ((k, s) ∷ rest) = if k == id then some s else find id rest

pub remove : ℕ → List (ℕ × Session) → List (ℕ × Session)
remove id [] = []
remove id ((k, s) ∷ rest) = let kept = remove id rest in if k == id then kept else (k, s) ∷ kept

-- `pauseRenewalLocked`
pause_renewal : Job → String → Job
pause_renewal j reason =
    if str_eq j.state "complete"
    then j
    else record j { state = "paused"; reason = reason; next = 0; cancelled = true }

-- `pauseWatchLocked`
pause_watch : Watch → String → String → Watch
pause_watch w reason recovery = record w {
  state = "paused";
  reason = reason;
  recovery = recovery;
  next = 0;
  cancelled = true;
}

-- The three tests on an owner of `forgetSessionLocked`.
pub end_renewal : ℕ → Option Job → Option Job
unfolding pause_renewal
end_renewal id none = none
end_renewal id (some j) = if j.owner == id then some (pause_renewal j "access-ended") else some j

pub end_watch : ℕ → Option Watch → Option Watch
unfolding pause_watch
end_watch id none = none
end_watch id (some w) = if w.owner == id then some (pause_watch w "access-ended" "none") else some w

pub end_preview : ℕ → Option ℕ → Option ℕ
end_preview id none = none
end_preview id (some owner) = if owner == id then none else some owner

monitor_after : Option Session → String → String
monitor_after none monitor = monitor
monitor_after (some s) monitor = "locked"

-- `forgetSessionLocked`
pub forget_session : Gate → ℕ → Gate
unfolding end_renewal end_watch end_preview monitor_after
forget_session g id = record g {
  sessions = remove id g.sessions;
  renewal = end_renewal id g.renewal;
  watch = end_watch id g.watch;
  preview = end_preview id g.preview;
  monitor = monitor_after (find id g.sessions) g.monitor;
}

same_revision : Option ℕ → Session → Bool
same_revision none s = false
same_revision (some revision) s = s.revision == revision

-- The test of `currentSession` on the session of the map.
admit : Gate → ℕ → Option ℕ → Instant → Option Session → Option Session × Gate
unfolding same_revision
admit g id revision now none = (none, forget_session g id)
admit g id revision now (some s) =
    if same_revision revision s && ltb now s.expires
    then (some s, g)
    else (none, forget_session g id)

-- `currentSession`: `cookie` is the digest of a token of 43 bytes, and `revision` is what the access
-- file now says.
pub current_session : Gate → Option ℕ → Option ℕ → Instant → Option Session × Gate
unfolding admit
current_session g none revision now = (none, g)
current_session g (some id) revision now = admit g id revision now (find id g.sessions)

-- The loop over the sessions for the oldest one.
pub oldest : ℕ → Instant → List (ℕ × Session) → ℕ
oldest id earliest [] = id
oldest id earliest ((k, s) ∷ rest) =
    let first = earliest == 0 || ltb s.expires earliest in
    oldest (if first then k else id) (if first then s.expires else earliest) rest

abbrev pub max_sessions : ℕ
max_sessions = 32

-- The loop that makes room for a session; each round forgets one, so their number is fuel enough.
pub make_room : ℕ → Gate → Gate
unfolding forget_session
make_room zero g = g
make_room (suc n) g =
    let rest = make_room n (forget_session g (oldest 0 0 g.sessions)) in
    if leb max_sessions (length g.sessions) then rest else g

-- The session that `issueSession` stores.
pub new_session : Bool → ℕ → Bytes → Bytes → Instant → Session
new_session setup revision key install now =
    let ready = not setup && length key == 32 && length install == 16 in
    record {
      setup = setup;
      expires = now + (if setup then 15 * minute else 12 * hour);
      revision = revision;
      inventory_ready = ready;
      data_key = if ready then key else [];
      installation_id = if ready then install else [];
    }

-- `issueSession`, with the digest of the drawn token.
pub issue_session : Gate → ℕ → Bool → ℕ → Bytes → Bytes → Instant → Gate
unfolding make_room new_session
issue_session g id setup revision key install now =
    let roomy = make_room (length g.sessions) g in
    record roomy {
      sessions = (id, new_session setup revision key install now) ∷ remove id roomy.sessions;
    }

forget_each : List (ℕ × Session) → Gate → Gate
forget_each [] g = g
forget_each ((k, s) ∷ rest) g = forget_each rest (forget_session g k)

-- `revokeAll`
revoke_all : Gate → Gate
unfolding forget_each
revoke_all g = record (forget_each g.sessions g) { sessions = [] }

pub recent : Instant → List Instant → List Instant
recent now [] = []
recent now (at ∷ rest) =
    let kept = recent now rest in if ltb (now - at) minute then at ∷ kept else kept

-- `allowAttempt`
pub allow_attempt : Gate → Instant → Bool × Gate
unfolding recent
allow_attempt g now =
    let kept = recent now g.attempts in
    if leb 5 (length kept)
    then (false, record g { attempts = kept })
    else (true, record g { attempts = kept ++ now ∷ [] })
