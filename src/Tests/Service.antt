-- ===== src/Tests/Service.antt =====
-- A client and a server that meet.
use r9p.Base.{ℕ, true, refl, some, arith}
use r9p.Base.Map.{lookup}
use r9p.Message.{TMessage, ttag}
use r9p.Session.{session_new, config_default}
use r9p.Client.{Op}
use r9p.Client.Settles.{Settled}
use r9p.Server.Handle.{Server, handle}
use r9p.Exchange.{handle-Settled}
use r9p.Tests.Sessions.{small_tree}
use r9p.Tests.Client.{digits, waiting}

abbrev examine : Op
examine = record { tag = 0; fid = some 1; message = TMessage.stat 0 1 }

abbrev service : Server ℕ
service = record {
  session = record (session_new config_default) { msize = 8192; negotiated = true };
  state = 0;
}

handle-Settled_example : Settled digits (handle small_tree examine.message service).0 waiting
unfolding ttag lookup
handle-Settled_example =
    handle-Settled small_tree digits service waiting examine
      {key = record { tag = 0; generation = 0 }} tt refl (omega arith) refl refl
