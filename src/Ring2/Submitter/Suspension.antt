-- ===== src/Ring2/Submitter/Suspension.antt =====
-- What a sleeping fiber does not notice.
use hnet.Prelude.{ℕ, ◌≡◌, ◌≢◌, refl, false, List, ◌++◌, Option, none, some, arith}
use hnet.Ring2.Kernel.{UsefulCqe}
use hnet.Ring2.Poller.Setters.{Store}
use hnet.Ring2.Poller.Quiet.{Quiet, still, other}
use hnet.Ring2.Submitter.{suspend, wakes_me}

wakes_me_other : (fiber : ℕ) (woken : Option ℕ) → woken ≢ some fiber → wakes_me fiber woken ≡ false
wakes_me_other fiber none h = refl
wakes_me_other fiber (some f) h = ground arith

-- A fiber sleeps through the completions of others.
pub suspend-Quiet :
    {fiber : ℕ} {IsMine : ℕ → Type 0} {h h' : Store} {cs : List UsefulCqe} (rest : List UsefulCqe)
    → Quiet fiber IsMine h cs h'
    → suspend fiber (cs ++ rest) h ≡ suspend fiber rest h'
unfolding suspend
suspend-Quiet rest still = refl
suspend-Quiet {fiber} rest (other woken e foreign asleep quiet) =
    rw (e, suspend, wakes_me_other fiber woken asleep) (suspend-Quiet rest quiet)
