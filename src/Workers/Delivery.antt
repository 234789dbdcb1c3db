-- ===== src/Workers/Delivery.antt =====
-- What becomes of the messages that a worker's channel accepts.
use simple_claw.Base.{ℕ, ◌≡◌, List, ◌++◌, some}
use simple_claw.Workers.{Task, System}

module _ {T : Type 0} where
  -- The messages taken, then those that wait, are those accepted.
  abbrev InOrder : Task T → Type 0
  InOrder t = t.accepted ≡ t.handled ++ t.queue

  abbrev AllInOrder : System T → Type 0
  AllInOrder s = (i : ℕ) (t : Task T) → s.tasks i ≡ some t → InOrder t
