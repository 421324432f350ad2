-- ===== src/Timer/Clearing.antt =====
-- `Clear` of src/TimerTaskQueue.cpp comes to its end.
use empool.Base.{ℕ, zero, suc, ◌<◌, ◌≡◌, refl, some, List, [], ◌∷◌, length, arith}
use empool.Heap.{PopHeap, PriorityQueue, empty, heap, contents, pop}
use empool.Timer.{Store, compare_timer_task, pop_min, clear_loop, clear}

pop_min-length :
    (lib : PopHeap) (tasks : Store) (t : ℕ) (rest : List ℕ)
    → length (contents (pop_min lib tasks (heap t rest))) ≡ length rest
unfolding pop_min pop
pop_min-length lib tasks t [] = refl
pop_min-length lib tasks t (a ∷ cs) =
    ground (arith, lib.select-length (compare_timer_task tasks) a cs)

clear_loop-empty :
    (lib : PopHeap) (fuel : ℕ) (tasks : Store) (q : PriorityQueue)
    → length (contents q) < fuel
    → clear_loop lib fuel tasks q ≡ some empty
unfolding clear_loop
clear_loop-empty lib zero tasks q h = absurd (omega arith)
clear_loop-empty lib (suc fuel) tasks empty h = refl
clear_loop-empty lib (suc fuel) tasks (heap t rest) h =
    clear_loop-empty lib fuel tasks (pop_min lib tasks (heap t rest))
      (omega (arith, pop_min-length lib tasks t rest))

-- `Clear` returns, and leaves the queue empty.
clear-empty : (lib : PopHeap) (tasks : Store) (q : PriorityQueue) → clear lib tasks q ≡ some empty
unfolding clear
clear-empty lib tasks q = clear_loop-empty lib _ tasks q (omega arith)
