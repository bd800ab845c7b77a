-- ===== src/NumberServer/Main.antt =====
-- exp1/server8 copy.c, lines 95-187: the signal and `main`, which are those of exp1/server_final.c.
use rnd.Common.{List}
use rnd.Common.Setup.{Calls}
use rnd.SequenceServer.Server.{Input}
use rnd.SequenceServer.Main.{Process, main}
use rnd.NumberServer.Server.{number_program}

unfoldable pub number_main : Calls → List Input → Process
number_main c is = main number_program c is
