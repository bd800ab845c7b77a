-- ===== src/SequenceServer/Memory.antt =====
-- exp1/server_final.c: use of `connections` under the kernel's rules for descriptors.
use rnd.Common.{false, List, [], ◌≡◌, refl}
use rnd.EventLoop.State.{Event, start_with, handle_events}
use rnd.EventLoop.Memory.{ClosesAtEnd, IsKernelRun, events_are_defined}
use rnd.SequenceServer.Tracker.{start}
use rnd.SequenceServer.Server.{handle_connection, sequence_program}

sequence_program-ClosesAtEnd : ClosesAtEnd sequence_program
unfolding sequence_program handle_connection
sequence_program-ClosesAtEnd = record {
  at_failure = λ c x. refl;
  at_end = λ c x. refl;
  at_bytes = λ bytes c x. (c, refl);
}

-- If new descriptors are below MAX_CONNECTIONS and only open ones have events, a run from the
-- start neither reads freed memory nor writes past the table of connections.
pub run_is_defined :
    (es : List Event)
    → IsKernelRun 10000 [] es
    → (handle_events sequence_program es (start_with start)).is_undefined ≡ false
unfolding sequence_program
run_is_defined es k = events_are_defined sequence_program sequence_program-ClosesAtEnd es start k
