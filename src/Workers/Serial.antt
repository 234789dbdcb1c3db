-- ===== src/Workers/Serial.antt =====
-- Messages of one session key are handled one after the other.
use native.Mathlib.Nat.{add-zero}
use simple_claw.Base.{
  ◌++◌, ℕ, suc, ◌+◌, ◌<◌, ◌≤◌, ◌^◌, ◌≡◌, refl, Text, List, [], ◌∷◌, none, some, Bool, true, false,
  arith, length, eqb, Option-cases, Bool-cases, inl, inr,
}
use simple_claw.Base.Dict
use simple_claw.Base.Dict.{get-insert, get-remove}
use simple_claw.Workers.{
  Phase, receiving, handling, stopped, retired, Task, SessionWorker, System, Event, acquires, sends,
  evicts, removes, takes, finishes, idles, retires, closes, new, step, run, set_task, accepts,
  worker_sender_for_key, remove_worker_if_matches, takes_in, finishes_in, idles_in, closes_in,
  on_task, send, evict, retire, retires_in,
}

-- The worker can be in its handler, now or later.
abbrev pub is_active : Phase → Bool
is_active receiving = true
is_active handling = true
is_active _ = false

abbrev pub worker : ℕ → SessionWorker
worker i = record { id = i; tx = i }

abbrev pub IsRemoval : {T : Type 0} → Event T → Type 0
IsRemoval (removes key) = Unit
IsRemoval _ = ⊥

module _ {T : Type 0} where
  -- At most `n` ids were given out, later ones are unused, and a worker that can be in its handler
  -- has the entry of its key.
  pub record Inv (n : ℕ) (s : System T) : Type 0 where
    pub bound : s.next_worker_id ≤ n
    pub fresh : (k : ℕ) → s.next_worker_id ≤ k → s.tasks k ≡ none
    pub owner :
        (i : ℕ) (t : Task T)
        → s.tasks i ≡ some t
        → is_active t.phase ≡ true
        → Dict.get s.workers t.key ≡ some (worker i)

  set_task-Inv :
      (n : ℕ) (s : System T) (i : ℕ) (t t' : Task T)
      → s.tasks i ≡ some t
      → t'.key ≡ t.key
      → (is_active t'.phase ≡ true → is_active t.phase ≡ true)
      → Inv n s
      → Inv n (set_task s i t')
  set_task-Inv n s i t t' e k a v = record {
    bound = v.bound;
    fresh = λ j h. ground (arith, v.fresh j);
    owner = λ j u f h. ground (arith, v.owner j u, v.owner i t);
  }

  -- An entry whose worker is not active can be dropped.
  drop-Inv :
      (n : ℕ) (s : System T) (key : Text) (i : ℕ) (t : Task T)
      → s.tasks i ≡ some t
      → is_active t.phase ≡ false
      → Inv n s
      → Inv n (remove_worker_if_matches s key i)
  unfolding remove_worker_if_matches
  drop-Inv n s key i t e a v = elim (Option-cases (Dict.get s.workers key)) [
    | inl none_there ↦ rw (none_there, remove_worker_if_matches) v
    | inr (w, there) ↦ elim (Bool-cases (eqb w.id i)) [
      | inl same ↦
          rw (there, remove_worker_if_matches, same)
            (record {
              bound = v.bound;
              fresh = v.fresh;
              owner = λ j u f h. ground (arith, v.owner j u, get-remove s.workers key u.key);
            })
      | inr other ↦ rw (there, remove_worker_if_matches, other) v
    ]
  ]

  acquires-Inv :
      (n : ℕ) (s : System T) (key : Text)
      → n + 1 < 2 ^ 64
      → Inv n s
      → Inv (n + 1) (step s (acquires key))
  unfolding step worker_sender_for_key
  acquires-Inv n s key b v = elim (Option-cases (Dict.get s.workers key)) [
    | inl absent ↦
        rw (absent, step, worker_sender_for_key)
          (record {
            bound = ground (arith, v.bound);
            fresh = λ k h. ground (arith, v.bound, v.fresh k);
            owner = λ j u f h.
                ground
                  (arith, v.owner j u, get-insert s.workers key u.key (worker s.next_worker_id));
          })
    | inr (w, there) ↦
        rw (there, step, worker_sender_for_key)
          (record { bound = omega (arith, v.bound); fresh = v.fresh; owner = v.owner })
  ]

  -- A step of a task keeps its key, and starts no task that had ended.
  abbrev Keeps : (Task T → Task T) → Type 0
  Keeps f =
      (t : Task T) → ((f t).key ≡ t.key) × (is_active (f t).phase ≡ true → is_active t.phase ≡ true)

  takes_in-Keeps : Keeps (λ t. takes_in t t.phase)
  unfolding takes_in
  takes_in-Keeps t = (ground arith, ground arith)

  finishes_in-Keeps : Keeps (λ t. finishes_in t t.phase)
  unfolding finishes_in
  finishes_in-Keeps t = (ground arith, ground arith)

  idles_in-Keeps : Keeps (λ t. idles_in t t.phase)
  unfolding idles_in
  idles_in-Keeps t = (ground arith, ground arith)

  closes_in-Keeps : Keeps (λ t. closes_in t t.phase)
  unfolding closes_in
  closes_in-Keeps t = (ground arith, ground arith)

  on_task-Inv :
      (n : ℕ) (s : System T) (i : ℕ) (f : Task T → Task T)
      → Keeps f
      → Inv n s
      → Inv n (on_task s i f (s.tasks i))
  on_task-Inv n s i f k v = elim (Option-cases (s.tasks i)) [
    | inl e ↦ rw e v
    | inr (t, e) ↦ rw e (set_task-Inv n s i t (f t) e (k t).0 (k t).1 v)
  ]

  sends-Inv : (n : ℕ) (s : System T) (i : ℕ) (m : T) → Inv n s → Inv n (send s i m).1
  unfolding send
  sends-Inv n s i m v = elim (Option-cases (s.tasks i)) [
    | inl e ↦ rw (e, send) v
    | inr (t, e) ↦ elim (Bool-cases (accepts t.phase)) [
      | inl live ↦
          rw (e, send, live)
            (set_task-Inv n s i t
              (record t { queue = t.queue ++ m ∷ []; accepted = t.accepted ++ m ∷ [] }) e refl
              (λ h. h) v)
      | inr shut ↦ rw (e, send, shut) v
    ]
  ]

  evicts-Inv :
      (n : ℕ) (s : System T) (key : Text) (i : ℕ) → Inv n s → Inv n (evict s key i (s.tasks i))
  evicts-Inv n s key i v = elim (Option-cases (s.tasks i)) [
    | inl e ↦ rw e v
    | inr (t, e) ↦ elim (Bool-cases (accepts t.phase)) [
      | inl live ↦ rw (e, live) v
      | inr shut ↦ rw (e, shut) (drop-Inv n s key i t e (unfold accepts in ground arith) v)
    ]
  ]

  tasks-remove :
      (s : System T) (key : Text) (i : ℕ) → (remove_worker_if_matches s key i).tasks ≡ s.tasks
  unfolding remove_worker_if_matches
  tasks-remove s key i = ground arith

  retires_in-Inv :
      (n : ℕ) (s : System T) (i : ℕ) (t : Task T) (p : Phase)
      → s.tasks i ≡ some t
      → t.phase ≡ p
      → Inv n s
      → Inv n (retires_in s i t p)
  unfolding retires_in
  retires_in-Inv n s i t stopped e q v =
      set_task-Inv n (remove_worker_if_matches s t.key i) i t (record t { phase = retired })
        (rw tasks-remove e) refl (λ h. cc) (drop-Inv n s t.key i t e (rw q refl) v)
  retires_in-Inv n s i t _ e q v = v

  retires-Inv : (n : ℕ) (s : System T) (i : ℕ) → Inv n s → Inv n (retire s i (s.tasks i))
  retires-Inv n s i v = elim (Option-cases (s.tasks i)) [
    | inl e ↦ rw e v
    | inr (t, e) ↦ rw e (retires_in-Inv n s i t t.phase e refl v)
  ]

  Inv-suc : (n : ℕ) (s : System T) → Inv n s → Inv (n + 1) s
  Inv-suc n s v = record { bound = omega (arith, v.bound); fresh = v.fresh; owner = v.owner }

  step-Inv :
      (n : ℕ) (s : System T) (e : Event T)
      → n + 1 < 2 ^ 64
      → ¬ IsRemoval e
      → Inv n s
      → Inv (n + 1) (step s e)
  unfolding step
  step-Inv n s (acquires key) b k v = acquires-Inv n s key b v
  step-Inv n s (sends i m) b k v = Inv-suc n _ (sends-Inv n s i m v)
  step-Inv n s (evicts key i) b k v = Inv-suc n _ (evicts-Inv n s key i v)
  step-Inv n s (removes key) b k v = absurd (k tt)
  step-Inv n s (takes i) b k v =
      Inv-suc n _ (on_task-Inv n s i (λ t. takes_in t t.phase) takes_in-Keeps v)
  step-Inv n s (finishes i) b k v =
      Inv-suc n _ (on_task-Inv n s i (λ t. finishes_in t t.phase) finishes_in-Keeps v)
  step-Inv n s (idles i) b k v =
      Inv-suc n _ (on_task-Inv n s i (λ t. idles_in t t.phase) idles_in-Keeps v)
  step-Inv n s (retires i) b k v = Inv-suc n _ (retires-Inv n s i v)
  step-Inv n s (closes i) b k v =
      Inv-suc n _ (on_task-Inv n s i (λ t. closes_in t t.phase) closes_in-Keeps v)

  abbrev pub NoRemovals : List (Event T) → Type 0
  NoRemovals [] = Unit
  NoRemovals (e ∷ es) = (¬ IsRemoval e) × NoRemovals es

  run-Inv :
      (es : List (Event T)) (n : ℕ) (s : System T)
      → n + length es < 2 ^ 64
      → NoRemovals es
      → Inv n s
      → Inv (n + length es) (run s es)
  unfolding run
  run-Inv [] n s b k v = rw add-zero v
  run-Inv (e ∷ es) n s b (k, ks) v =
      rw shift (run-Inv es (n + 1) (step s e) (omega arith) ks (step-Inv n s e (omega arith) k v))
    where
      shift : n + suc (length es) ≡ n + 1 + length es
      shift = omega arith

  new-Inv : Inv 1 (new {T = T})
  unfolding new
  new-Inv = record { bound = omega arith; fresh = λ k h. refl; owner = λ i t e h. cc }

-- Whatever the interleaving, as long as no key is removed from outside and the ids do not wrap, two
-- workers of the same session key that can be in their handlers are one worker.
pub run-serial :
    {T : Type 0} (es : List (Event T)) (i j : ℕ) (t u : Task T)
    → 1 + length es < 2 ^ 64
    → NoRemovals es
    → (run new es).tasks i ≡ some t
    → (run new es).tasks j ≡ some u
    → t.key ≡ u.key
    → is_active t.phase ≡ true
    → is_active u.phase ≡ true
    → i ≡ j
run-serial es i j t u b k e f same a c =
    let v = run-Inv es 1 new b k new-Inv in ground (arith, v.owner i t e a, v.owner j u f c)
