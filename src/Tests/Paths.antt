-- ===== src/Tests/Paths.antt =====
-- The operations on paths, over the stream that delivers one byte at a time.
use r9p.Base.{ℕ, ◌≡◌, refl, inl, Bytes, bytes, [], ◌∷◌, ◌++◌, none, some, ok, err, from_static}
use r9p.Message.{RMessage, rtag, rmessage_type}
use r9p.Codec.Frame.{frame_bytes}
use r9p.Codec.ResponseLayout.{rbody_bytes}
use r9p.Blocking.{Environment, BlockingClient}
use r9p.Blocking.Connect.{fresh_client}
use r9p.Blocking.Fids.{stat}
use r9p.Blocking.Paths.{
  walk_path, stat_path, read_path, read_path_range, write_path, write_file, create_at, list_path,
  rpc_path,
}
use r9p.Blocking.Releases.{Releases, paths-Releases}
use r9p.Blocking.Early.{EndsEarly, ListFails, RpcFails, early_paths-EndsEarly}
use r9p.Tests.Exchange.{Drip, drip_environment}

abbrev name : Bytes
name = b'a' ∷ []

paths-Releases_example :
    Releases drip_environment name (stat_path drip_environment name)
    × Releases drip_environment name (read_path drip_environment name)
    × Releases drip_environment name (read_path_range drip_environment name 0 3)
    × Releases drip_environment name (write_path drip_environment name 0 name)
    × Releases drip_environment name (write_file drip_environment name name)
    × Releases drip_environment name (create_at drip_environment name name 420 1)
paths-Releases_example = paths-Releases drip_environment name name name 0 3 420 1

early_paths-EndsEarly_example :
    EndsEarly drip_environment name (ListFails drip_environment) (list_path drip_environment name)
    × EndsEarly drip_environment name
        (RpcFails drip_environment name)
        (rpc_path drip_environment name name)
early_paths-EndsEarly_example = early_paths-EndsEarly drip_environment name name

abbrev reply_frame : RMessage → Bytes
reply_frame m = frame_bytes (rmessage_type m) (rtag m) (rbody_bytes m)

-- The server lets the client walk to the root, and refuses to examine it.
abbrev refusing : BlockingClient Drip
refusing =
    fresh_client drip_environment
      (reply_frame (RMessage.walk 0 []) ++ reply_frame (RMessage.error 1 (b'n' ∷ [])), 0)

abbrev walked_client : BlockingClient Drip
walked_client = record refusing {
  stream = (reply_frame (RMessage.error 1 (b'n' ∷ [])), 0);
  protocol = record refusing.protocol {
    next_tag = 1;
    next_fid = 2;
    pending = record { next_generation = 1; live = [] };
  };
}

walks : walk_path drip_environment [] refusing ≡ some (ok 1, walked_client)
unfolding walk_path r9p.Base.Run.◌>>=◌ r9p.Base.Run.◌>>◌ r9p.Base.Run.get r9p.Base.Run.return
    r9p.Base.Run.lift r9p.Blocking.Paths.path_names r9p.Blocking.Fids.clone_fid
    r9p.Blocking.Fids.walk r9p.Blocking.Fids.walk_short r9p.Blocking.on_protocol r9p.Blocking.op_fid
    r9p.Blocking.call_op r9p.Blocking.call_message r9p.Blocking.send r9p.Blocking.read_response
    r9p.Blocking.matched r9p.Client.Ops.walk r9p.Base.Stateful.◌>>=◌ r9p.Base.Stateful.◌>>◌
    r9p.Base.Stateful.return r9p.Base.Stateful.lift r9p.Base.Stateful.modify r9p.Client.alloc_tag
    r9p.Client.alloc_fid r9p.Client.alloc_rounds r9p.Client.client_new r9p.Flush.is_live
    r9p.Flush.table_new r9p.Base.Map.lookup r9p.Base.Map.insert r9p.Base.Map.remove
    r9p.Client.begin_tag r9p.Flush.begin r9p.Flush.flush r9p.Codec.Stream.write_tmessage_checked
    r9p.Codec.Stream.write_frame r9p.Codec.EncodeRequest.encode_tmessage_checked
    r9p.Codec.EncodeRequest.encode_tmessage r9p.Codec.EncodeRequest.encode_tbody
    r9p.Codec.frame_prefix r9p.Codec.finish_frame r9p.Codec.check_msize r9p.Wire.push_u8
    r9p.Wire.push_u16 r9p.Wire.push_u32 r9p.Wire.push_u64 r9p.Wire.push_string r9p.Wire.to_le
    r9p.Wire.from_le r9p.Message.ttag r9p.Message.tmessage_type r9p.Message.rtag
    r9p.Message.rmessage_type r9p.Codec.Stream.read_rmessage_checked
    r9p.Codec.Stream.read_frame_checked r9p.Codec.Stream.read_prefix r9p.Codec.Stream.prefix_round
    r9p.Codec.Stream.read_body r9p.Codec.Stream.check_frame_size r9p.Codec.Stream.frame_of
    r9p.Codec.DecodeResponse.decode_rmessage r9p.Codec.DecodeResponse.read_rbody
    r9p.Codec.decode_frame r9p.Codec.validate_frame_size r9p.Wire.◌>>=◌ r9p.Wire.◌>>◌
    r9p.Wire.return r9p.Wire.require r9p.Wire.cursor_new r9p.Wire.remaining r9p.Wire.take_bytes
    r9p.Wire.read_u8 r9p.Wire.read_u16 r9p.Wire.read_u32 r9p.Wire.read_string
    r9p.Client.Receive.receive r9p.Client.Receive.finish_tag r9p.Client.Receive.flush_pending
    r9p.Codec.Frame.frame_bytes r9p.Codec.EncodeRequest.push_names r9p.Wire.read_many
walks = refl

abbrev refused_client : BlockingClient Drip
refused_client = record walked_client {
  stream = ([], 0);
  protocol = record walked_client.protocol {
    next_tag = 2;
    pending = record { next_generation = 2; live = [] };
  };
}

refuses_stat :
    stat drip_environment 1 walked_client
    ≡ some (err (record { message = b'n' ∷ [] }), refused_client)
unfolding stat r9p.Base.Run.◌>>=◌ r9p.Base.Run.◌>>◌ r9p.Base.Run.get r9p.Base.Run.return
    r9p.Base.Run.lift r9p.Blocking.on_protocol r9p.Blocking.call_op r9p.Blocking.call_message
    r9p.Blocking.send r9p.Blocking.read_response r9p.Blocking.matched r9p.Client.Ops.stat
    r9p.Base.Stateful.◌>>=◌ r9p.Base.Stateful.◌>>◌ r9p.Base.Stateful.return r9p.Base.Stateful.lift
    r9p.Base.Stateful.modify r9p.Client.alloc_tag r9p.Client.alloc_rounds r9p.Client.client_new
    r9p.Flush.is_live r9p.Flush.table_new r9p.Base.Map.lookup r9p.Base.Map.insert
    r9p.Base.Map.remove r9p.Client.begin_tag r9p.Flush.begin r9p.Flush.flush
    r9p.Codec.Stream.write_tmessage_checked r9p.Codec.Stream.write_frame
    r9p.Codec.EncodeRequest.encode_tmessage_checked r9p.Codec.EncodeRequest.encode_tmessage
    r9p.Codec.EncodeRequest.encode_tbody r9p.Codec.frame_prefix r9p.Codec.finish_frame
    r9p.Codec.check_msize r9p.Wire.push_u8 r9p.Wire.push_u16 r9p.Wire.push_u32 r9p.Wire.push_u64
    r9p.Wire.push_string r9p.Wire.to_le r9p.Wire.from_le r9p.Message.ttag r9p.Message.tmessage_type
    r9p.Message.rtag r9p.Message.rmessage_type r9p.Codec.Stream.read_rmessage_checked
    r9p.Codec.Stream.read_frame_checked r9p.Codec.Stream.read_prefix r9p.Codec.Stream.prefix_round
    r9p.Codec.Stream.read_body r9p.Codec.Stream.check_frame_size r9p.Codec.Stream.frame_of
    r9p.Codec.DecodeResponse.decode_rmessage r9p.Codec.DecodeResponse.read_rbody
    r9p.Codec.decode_frame r9p.Codec.validate_frame_size r9p.Wire.◌>>=◌ r9p.Wire.◌>>◌
    r9p.Wire.return r9p.Wire.require r9p.Wire.cursor_new r9p.Wire.remaining r9p.Wire.take_bytes
    r9p.Wire.read_u8 r9p.Wire.read_u16 r9p.Wire.read_u32 r9p.Wire.read_string
    r9p.Client.Receive.receive r9p.Client.Receive.finish_tag r9p.Client.Receive.flush_pending
    r9p.Codec.Frame.frame_bytes r9p.Client.Receive.end_error r9p.Client.Receive.forget_flush
refuses_stat = refl

-- The walked fid 1 is not given back: the stream has taken no request but the walk and the stat.
list_path_keeps_fid :
    list_path drip_environment [] refusing
    ≡ some (err (record { message = b'n' ∷ [] }), refused_client)
unfolding list_path r9p.Base.Run.◌>>=◌ r9p.Base.Run.◌>>◌
list_path_keeps_fid = rw (walks, refuses_stat) refl
