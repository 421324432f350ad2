-- ===== src/Single/System.antt =====
-- The pool, its thread, and any number of threads that add tasks and shut it down.
use empool.Base.{ℕ, Bool}
use empool.Heap.{PopHeap}
use empool.Closeable.{born}
use empool.Single.{Store, Pool, RunMode, new_pool, do_add_task, shut_down, Pc, at, step}

pub record System : Type 0 where
  pub pool : Pool
  pub pc : Pc

pub data Step (lib : PopHeap) (tasks : Store) (s : System) : System → Type 0 where
  adds : (x : ℕ) → Step lib tasks s (record s { pool = (do_add_task tasks s.pool x).0 })
  advances :
      (escapes : Bool)
      → Step lib tasks s (record {
        pool = (step lib escapes tasks s.pool s.pc).0;
        pc = (step lib escapes tasks s.pool s.pc).1;
      })
  shuts :
      (fails fails_close : Bool) (end : ℕ)
      → Step lib tasks s (record s { pool = shut_down fails fails_close tasks s.pool end })

pub data Steps (lib : PopHeap) (tasks : Store) (s : System) : System → Type 0 where
  here : Steps lib tasks s s
  then_ : {t u : System} → Steps lib tasks s t → Step lib tasks t u → Steps lib tasks s u

abbrev pub start : RunMode → System
start mode = record { pool = new_pool mode; pc = at born }
