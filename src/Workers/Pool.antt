-- ===== src/Workers/Pool.antt =====
-- WorkerPool of execution_bridge/parallel_worker_pool.py and the dispatch of
-- execution_bridge/execution_router.py. A task is known by whether it is done; awaiting tasks is
-- left out.
use Prim.Native.String.{String}
use option_chain_based_strat.Common.{
  ℕ, ◌+◌, ◌-◌, ◌*◌, Bool, true, false, ◌&&◌, Option, none, some, [], ◌∷◌, string_eq, if◌then◌else◌,
  leb, ltb,
}
use option_chain_based_strat.Common.Dict.{Dict, lookup, insert}
use option_chain_based_strat.Workers.Circuit.{Worker, enqueue}

-- A worker with its flag `_running`.
pub record Member (S : Type 0) : Type 0 where
  pub worker : Worker S
  pub running : Bool

-- The pool; a task maps to `done()`.
pub record Pool (S : Type 0) : Type 0 where
  pub workers : Dict String (Member S)
  pub tasks : Dict String Bool
  pub running : Bool

module _ {S : Type 0} where
  unfoldable pub register : String → Member S → Pool S → Pool S
  register client_id m p = record p { workers = insert client_id m p.workers }

  abbrev pub started : Dict String (Member S) → Dict String Bool → Dict String Bool
  started [] tasks = tasks
  started ((cid, m) ∷ ms) tasks = started ms (insert cid false tasks)

  -- Each task sets the flag of its worker once it runs.
  unfoldable pub start_all : Pool S → Pool S
  start_all p = record p { tasks = started p.workers p.tasks; running = true }

  abbrev pub halted : Dict String (Member S) → Dict String (Member S)
  halted [] = []
  halted ((cid, m) ∷ ms) = (cid, record m { running = false }) ∷ halted ms

  unfoldable pub stop_all : Pool S → Pool S
  stop_all p = record p { workers = halted p.workers; running = false }

  -- `dispatch`, with the number of workers that it returns.
  unfoldable pub dispatch_to : S → Dict String (Member S) → ℕ × Dict String (Member S)
  unfolding enqueue
  dispatch_to signal [] = (0, [])
  dispatch_to signal ((cid, m) ∷ ms) =
      let (n, rest) = dispatch_to signal ms in
      (n + 1, (cid, record m { worker = (enqueue signal m.worker).1 }) ∷ rest)

  unfoldable pub dispatch : S → Pool S → ℕ × Pool S
  unfolding dispatch_to
  dispatch signal p =
      let (n, workers) = dispatch_to signal p.workers in (n, record p { workers = workers })

  unfoldable pub add_worker : String → Member S → Pool S → Pool S
  add_worker client_id m p = record p {
    workers = insert client_id m p.workers;
    tasks = if p.running then insert client_id false p.tasks else p.tasks;
  }

  -- One round of _watcher_loop: a task that is done, and whose worker was not stopped, is started
  -- again.
  abbrev pub is_lost : Bool → Option (Member S) → Bool
  is_lost finished none = false
  is_lost finished (some m) = finished && m.running

  unfoldable pub watch : Dict String (Member S) → Dict String Bool → Dict String Bool
  watch workers [] = []
  watch workers ((cid, finished) ∷ tasks) =
      (cid, (if is_lost finished (lookup cid workers) then false else finished))
      ∷ watch workers tasks

-- SignalPackage.is_valid, with prices in paise and the confidence in thousandths.
pub record Levels : Type 0 where
  pub entry_spot : ℕ
  pub stop_spot : ℕ
  pub target_spot : ℕ
  pub confidence : ℕ

abbrev pub distance : ℕ → ℕ → ℕ
distance a b = (a - b) + (b - a)

unfoldable pub is_valid : Levels → Bool
is_valid s =
    let risk = distance s.entry_spot s.stop_spot in
    (ltb 0 risk && leb (2 * risk) (distance s.target_spot s.entry_spot)) && leb 500 s.confidence

-- `_dispatch` of the router.
unfoldable pub route : {S : Type 0} → (S → Levels) → S → Pool S → Pool S
unfolding is_valid dispatch
route levels signal p = if is_valid (levels signal) then (dispatch signal p).1 else p
