-- ===== src/Jobs/Coordinator/Delivery.antt =====
-- What a caller that waits for a job is told.
use rust_mcp.Prelude.{
  ℕ, ◌≤◌, ◌<◌, ◌≡◌, ◌≢◌, refl, ap, ◌∙◌, false, List, [], ◌∷◌, Option, none, some, arith, ◌==◌,
  ==_iff, if◌then◌else◌, Option-cases, Bool-cases, inl, inr,
}
use rust_mcp.Jobs.Coordinator.{
  JobOutcome, IndexingCoordinator, register, notify_worker, signal_completion, subscribe,
  await_outcome, received, new_coordinator,
}

-- What anyone does with the coordinator while a caller waits.
pub data Event : Type 0 where
  registered : ℕ → Event
  notified : Event
  signalled : ℕ → JobOutcome → Event

abbrev pub perform : Event → IndexingCoordinator → IndexingCoordinator
perform (registered job_id) c = register job_id c
perform notified c = notify_worker c
perform (signalled job_id outcome) c = signal_completion job_id outcome c

abbrev pub perform_all : List Event → IndexingCoordinator → IndexingCoordinator
perform_all [] c = c
perform_all (e ∷ es) c = perform_all es (perform e c)

-- The first outcome that is signalled for a job.
abbrev pub first_signal : ℕ → List Event → Option JobOutcome
first_signal job_id [] = none
first_signal job_id (registered j ∷ es) = first_signal job_id es
first_signal job_id (notified ∷ es) = first_signal job_id es
first_signal job_id (signalled j outcome ∷ es) =
    let later = first_signal job_id es in if job_id == j then some outcome else later

-- Every channel in the map was made, no two jobs share one, and nothing was sent on any of them.
pub record IsWired (c : IndexingCoordinator) : Type 0 where
  pub made : (j channel : ℕ) → c.waiters j ≡ some channel → channel < c.next_channel
  pub unshared : (i j channel : ℕ) → c.waiters i ≡ some channel → c.waiters j ≡ some channel → i ≡ j
  pub silent : (j channel : ℕ) → c.waiters j ≡ some channel → c.sent channel ≡ none
  pub unused : (channel : ℕ) → c.next_channel ≤ channel → c.sent channel ≡ none

register-IsWired : (j : ℕ) (c : IndexingCoordinator) → IsWired c → IsWired (register j c)
unfolding register
register-IsWired j c w = elim (Option-cases (c.waiters j)) [
  | inr (channel, e) ↦ rw e w
  | inl e ↦ rw e (record {
    made = λ i k h. ground (arith, w.made i k);
    unshared = λ i k ch h l. ground (arith, w.unshared i k ch, w.made i ch, w.made k ch);
    silent = λ i k h. ground (arith, w.silent i k, w.unused k);
    unused = λ k h. w.unused k (omega arith);
  })
]

signal-IsWired :
    (j : ℕ) (o : JobOutcome) (c : IndexingCoordinator)
    → IsWired c
    → IsWired (signal_completion j o c)
unfolding signal_completion
signal-IsWired j o c w = elim (Option-cases (c.waiters j)) [
  | inl e ↦ rw e w
  | inr (channel, e) ↦ rw e (record {
    made = λ i k h. ground (arith, w.made i k);
    unshared = λ i k ch h l. ground (arith, w.unshared i k ch);
    silent = λ i k h. ground (arith, w.silent i k, w.unshared i j k);
    unused = λ k h. ground (arith, w.unused k, w.made j channel e);
  })
]

perform-IsWired : (e : Event) (c : IndexingCoordinator) → IsWired c → IsWired (perform e c)
unfolding notify_worker
perform-IsWired (registered j) c w = register-IsWired j c w
perform-IsWired (signalled j o) c w = signal-IsWired j o c w
perform-IsWired notified c w = record {
  made = w.made;
  unshared = w.unshared;
  silent = w.silent;
  unused = w.unused;
}

perform_all-IsWired :
    (es : List Event) (c : IndexingCoordinator) → IsWired c → IsWired (perform_all es c)
perform_all-IsWired [] c w = w
perform_all-IsWired (e ∷ es) c w = perform_all-IsWired es (perform e c) (perform-IsWired e c w)

-- A channel that was made and is no longer in the map.
record IsSpent (channel : ℕ) (c : IndexingCoordinator) : Type 0 where
  past : channel < c.next_channel
  absent : (j : ℕ) → c.waiters j ≢ some channel

perform-IsSpent :
    (channel : ℕ) (e : Event) (c : IndexingCoordinator)
    → IsSpent channel c
    → IsSpent channel (perform e c)
unfolding register signal_completion notify_worker
perform-IsSpent channel notified c s = record { past = s.past; absent = s.absent }
perform-IsSpent channel (registered j) c s = elim (Option-cases (c.waiters j)) [
  | inr (k, e) ↦ rw e s
  | inl e ↦
      rw e (record {
        past = omega (arith, s.past);
        absent = λ i h. ground (arith, s.absent i, s.past);
      })
]
perform-IsSpent channel (signalled j o) c s = elim (Option-cases (c.waiters j)) [
  | inl e ↦ rw e s
  | inr (k, e) ↦ rw e (record { past = s.past; absent = λ i h. ground (arith, s.absent i) })
]

-- Nothing more is sent on it.
sent-perform :
    (channel : ℕ) (e : Event) (c : IndexingCoordinator)
    → IsSpent channel c
    → (perform e c).sent channel ≡ c.sent channel
unfolding register signal_completion notify_worker
sent-perform channel notified c s = refl
sent-perform channel (registered j) c s = elim (Option-cases (c.waiters j)) [
  | inr (k, e) ↦ rw e
  | inl e ↦ rw e
]
sent-perform channel (signalled j o) c s = elim (Option-cases (c.waiters j)) [
  | inl e ↦ rw e
  | inr (k, e) ↦ rw e (ground (arith, s.absent j))
]

sent-perform_all_spent :
    (channel : ℕ) (es : List Event) (c : IndexingCoordinator)
    → IsSpent channel c
    → (perform_all es c).sent channel ≡ c.sent channel
sent-perform_all_spent channel [] c s = refl
sent-perform_all_spent channel (e ∷ es) c s =
    sent-perform_all_spent channel es (perform e c) (perform-IsSpent channel e c s)
    ∙ sent-perform channel e c s

signal_other :
    (id j channel : ℕ) (o : JobOutcome) (c : IndexingCoordinator)
    → c.waiters id ≡ some channel
    → (id == j) ≡ false
    → (signal_completion j o c).waiters id ≡ some channel
unfolding signal_completion
signal_other id j channel o c h n = elim (Option-cases (c.waiters j)) [
  | inl e ↦ rw e h
  | inr (k, e) ↦ rw (e, n) h
]

register_kept :
    (id j channel : ℕ) (c : IndexingCoordinator)
    → c.waiters id ≡ some channel
    → (register j c).waiters id ≡ some channel
unfolding register
register_kept id j channel c h = elim (Option-cases (c.waiters j)) [
  | inr (k, e) ↦ rw e h
  | inl e ↦ rw e (ground (arith, h))
]

signal_self :
    (id channel : ℕ) (o : JobOutcome) (c : IndexingCoordinator)
    → IsWired c
    → c.waiters id ≡ some channel
    → IsSpent channel (signal_completion id o c)
      × ((signal_completion id o c).sent channel ≡ some o)
unfolding signal_completion
signal_self id channel o c w h = rw h (
  record { past = w.made id channel h; absent = λ i k. ground (arith, w.unshared i id channel) },
  ground arith,
)

sent-perform_all :
    (id channel : ℕ) (es : List Event) (c : IndexingCoordinator)
    → IsWired c
    → c.waiters id ≡ some channel
    → (perform_all es c).sent channel ≡ first_signal id es
sent-perform_all id channel [] c w h = w.silent id channel h
sent-perform_all id channel (registered j ∷ es) c w h =
    sent-perform_all id channel es (register j c) (register-IsWired j c w)
      (register_kept id j channel c h)
sent-perform_all id channel (notified ∷ es) c w h =
    sent-perform_all id channel es (notify_worker c) (perform-IsWired notified c w)
      (unfold notify_worker in h)
sent-perform_all id channel (signalled j o ∷ es) c w h = elim (Bool-cases (id == j)) [
  | inr n ↦ rw n (
      sent-perform_all id channel es (signal_completion j o c) (signal-IsWired j o c w)
        (signal_other id j channel o c h n))
  | inl y ↦
      let same : id ≡ j = (==_iff id j).0 y in
      let told = signal_self id channel o c w h in
      rw y
        (rw (← same) (sent-perform_all_spent channel es (signal_completion id o c) told.0 ∙ told.1))
]

register_waits :
    (id : ℕ) (c : IndexingCoordinator) → (channel : ℕ) × ((register id c).waiters id ≡ some channel)
unfolding register
register_waits id c = elim (Option-cases (c.waiters id)) [
  | inr (k, e) ↦ (k, rw e e)
  | inl e ↦ (c.next_channel, rw e (ground arith))
]

new-IsWired : IsWired new_coordinator
new-IsWired = record {
  made = λ j channel h. cc;
  unshared = λ i j channel h k. cc;
  silent = λ j channel h. cc;
  unused = λ channel h. refl;
}

-- Whatever was done before, and whatever is done afterwards for this job and for others, a caller
-- that registers a job and subscribes to it is told the first outcome that is signalled for that job
-- from then on (an error, if that is the pending outcome), and nothing as long as none is.
pub await_outcome-first_signal :
    (job_id : ℕ) (before after : List Event)
    → let c = register job_id (perform_all before new_coordinator) in
      await_outcome (subscribe job_id c) (perform_all after c)
      ≡ received (first_signal job_id after)
unfolding await_outcome subscribe
await_outcome-first_signal job_id before after =
    let c = perform_all before new_coordinator in
    let w = register-IsWired job_id c (perform_all-IsWired before new_coordinator new-IsWired) in
    let (channel, e) = register_waits job_id c in
    rw e (ap received (sent-perform_all job_id channel after (register job_id c) w e))
