-- ===== src/Examples/Barrier.antt =====
-- The barrier with one writer, process 1, and one maintainer, process 0.
use milhouse_oss.Prelude.{◌-◌, refl, arith}
use milhouse_oss.State.Barrier.{
  outside, entering, admitted, writing, queued, maintaining, nothing, gate_shared, gate_exclusive,
  main_shared, need, permits, System, put, Step, call, IsReachable, start, step,
}
use milhouse_oss.State.Barrier.Exclusion.{IsSafe, reachable-IsSafe}
use milhouse_oss.State.Barrier.Drain.{writers, Run, stay, more, Waiting, maintainer_enters}

abbrev idle : System
idle i = outside

abbrev one_writer : System
one_writer = put (put (put idle 1 entering) 1 admitted) 1 writing

abbrev one_queued : System
one_queued = put one_writer 0 queued

entered : IsReachable (put idle 1 entering)
unfolding need permits
entered = step start (call 1 entering gate_shared refl (λ j ne. refl))

was_admitted : IsReachable (put (put idle 1 entering) 1 admitted)
unfolding need permits put
was_admitted = step entered (call 1 admitted main_shared refl (λ j ne. ground (arith, ne)))

wrote : IsReachable one_writer
unfolding need permits put
wrote = step was_admitted (call 1 writing nothing refl (λ j ne. refl))

was_queued : IsReachable one_queued
unfolding need permits put
was_queued = step wrote (call 0 queued gate_exclusive refl (λ j ne. ground (arith, ne)))

reachable-IsSafe_example : IsSafe one_queued
reachable-IsSafe_example = reachable-IsSafe one_queued was_queued

waiting : Waiting 0 2 one_queued
unfolding put
waiting = record {
  reachable = was_queued;
  is_queued = refl;
  beyond = λ j le ne. ground (arith, le, ne);
}

-- The writer finishes.
finished : Run 0 one_queued 1 (put one_queued 1 outside)
unfolding need permits put
finished = more 1 outside nothing stay (λ e. absurd (omega (arith, e))) refl (λ j ne. refl)

maintainer_enters_example :
    (u : System) × Run 0 (put one_queued 1 outside) (writers 2 one_queued - 1) u
    × Step u (put u 0 maintaining)
maintainer_enters_example =
    maintainer_enters 0 2 one_queued (put one_queued 1 outside) 1 waiting finished
