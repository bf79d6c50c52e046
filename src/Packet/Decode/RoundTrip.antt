-- ===== src/Packet/Decode/RoundTrip.antt =====
-- A request that the client sends is the request that the server's loop receives.
use sftp_go.Base.{ℕ, ◌+◌, ◌≤◌, ◌≡◌, refl, ap, arith, Option, none, some, [], ◌∷◌, ◌++◌, length}
use mathlib.Core.Path.{subst}
use sftp_go.Wire.{Bytes}
use sftp_go.Packet.{
  Packet, init, lstat, open_file, close, read, write, fstat, setstat, fsetstat, opendir, readdir,
  remove, mkdir, rmdir, realpath, stat, rename, readlink, symlink, extended,
}
use sftp_go.Packet.Fxp
use sftp_go.Packet.Encode.{marshal_packet, marshal_attrs_field}
use sftp_go.Packet.Decode.{done, make_packet}
use sftp_go.Packet.Decode.Shapes.{Encodable, on_wire, Rebuilds, id_string_header, id_string_body}
use sftp_go.Packet.Decode.Bodies.{
  rename-Rebuilds, symlink-Rebuilds, read-Rebuilds, mkdir-Rebuilds, open-Rebuilds, setstat-Rebuilds,
  fsetstat-Rebuilds, write-Rebuilds,
}
use sftp_go.Packet.Decode.Pairs.{init-Rebuilds}
use sftp_go.Packet.Frame.{IoError, send_packet, max_msg_length}
use sftp_go.Packet.Frame.Stream.{source, recv_frame-send_packet}
use sftp_go.Packet.Incoming.{request, incoming}

-- The encoder's result, if it has one, is a header and a payload that rebuild the packet.
abbrev Rebuilt : Packet → Option (Bytes × Bytes) → Type 0
Rebuilt p none = Unit {0}
Rebuilt p (some (header, payload)) = (t : ℕ) × Rebuilds t header payload (on_wire p)

marshal_packet-Rebuilt : (p : Packet) → Encodable p → Rebuilt p (marshal_packet p)
unfolding marshal_packet on_wire make_packet
marshal_packet-Rebuilt (init version exts) (hv, he) = (Fxp.init, init-Rebuilds version exts hv he)
marshal_packet-Rebuilt (lstat id path) (hi, hs) =
    (Fxp.lstat, (_, id_string_header _ id path, id_string_body lstat id path hi hs))
marshal_packet-Rebuilt (open_file id path pflags flags attrs) (hi, hp, hf, hg) = (
  Fxp.open_file,
  open-Rebuilds id path pflags flags (marshal_attrs_field flags attrs) hi hp hf hg,
)
marshal_packet-Rebuilt (close id handle) (hi, hs) =
    (Fxp.close, (_, id_string_header _ id handle, id_string_body close id handle hi hs))
marshal_packet-Rebuilt (read id len offset handle) (hi, hl, ho, hh) =
    (Fxp.read, read-Rebuilds id len offset handle hi hl ho hh)
marshal_packet-Rebuilt (write id len offset handle content) (hi, hl, ho, hh, e) =
    (Fxp.write, write-Rebuilds id len offset handle content hi hl ho hh e)
marshal_packet-Rebuilt (fstat id handle) (hi, hs) =
    (Fxp.fstat, (_, id_string_header _ id handle, id_string_body fstat id handle hi hs))
marshal_packet-Rebuilt (setstat id flags path attrs) (hi, hf, hp) =
    (Fxp.setstat, setstat-Rebuilds id flags path (marshal_attrs_field flags attrs) hi hf hp)
marshal_packet-Rebuilt (fsetstat id flags handle attrs) (hi, hf, hh) =
    (Fxp.fsetstat, fsetstat-Rebuilds id flags handle (marshal_attrs_field flags attrs) hi hf hh)
marshal_packet-Rebuilt (opendir id path) (hi, hs) =
    (Fxp.opendir, (_, id_string_header _ id path, id_string_body opendir id path hi hs))
marshal_packet-Rebuilt (readdir id handle) (hi, hs) =
    (Fxp.readdir, (_, id_string_header _ id handle, id_string_body readdir id handle hi hs))
marshal_packet-Rebuilt (remove id filename) (hi, hs) =
    (Fxp.remove, (_, id_string_header _ id filename, id_string_body remove id filename hi hs))
marshal_packet-Rebuilt (mkdir id flags path) (hi, hf, hp) =
    (Fxp.mkdir, mkdir-Rebuilds id flags path hi hf hp)
marshal_packet-Rebuilt (rmdir id path) (hi, hs) =
    (Fxp.rmdir, (_, id_string_header _ id path, id_string_body rmdir id path hi hs))
marshal_packet-Rebuilt (realpath id path) (hi, hs) =
    (Fxp.realpath, (_, id_string_header _ id path, id_string_body realpath id path hi hs))
marshal_packet-Rebuilt (stat id path) (hi, hs) =
    (Fxp.stat, (_, id_string_header _ id path, id_string_body stat id path hi hs))
marshal_packet-Rebuilt (rename id old new) (hi, ho, hn) =
    (Fxp.rename, rename-Rebuilds id old new hi ho hn)
marshal_packet-Rebuilt (readlink id path) (hi, hs) =
    (Fxp.readlink, (_, id_string_header _ id path, id_string_body readlink id path hi hs))
marshal_packet-Rebuilt (symlink id target link) (hi, ht, hl) =
    (Fxp.symlink, symlink-Rebuilds id target link hi ht hl)
marshal_packet-Rebuilt (extended id req specific) h = tt

framed :
    (p : Packet) (header payload more : Bytes) (e : IoError)
    → Rebuilt p (some (header, payload))
    → length header + length payload ≤ max_msg_length + 4
    → incoming (source (send_packet (header, payload) ++ more) e)
      ≡ request (done (on_wire p)) (source more e)
unfolding incoming
framed p header payload more e (t, (body, eh, em)) h =
    let received =
      recv_frame-send_packet (0 ∷ 0 ∷ 0 ∷ 0 ∷ []) t body payload more e refl
        (omega (arith, ap length eh)) in
    rw eh (rw (received, incoming) (rw em))

-- Sending a request and receiving it gives the request itself, its attributes as raw bytes, and
-- leaves the connection at what follows: for every request that has an encoder, whose numbers and
-- lengths fit their fields, and whose packet is at most `maxMsgLength` long.
pub incoming-send_packet :
    (p : Packet) (sent : Bytes × Bytes) (more : Bytes) (e : IoError)
    → Encodable p
    → marshal_packet p ≡ some sent
    → length sent.0 + length sent.1 ≤ max_msg_length + 4
    → incoming (source (send_packet sent ++ more) e) ≡ request (done (on_wire p)) (source more e)
incoming-send_packet p sent more e h q fits =
    framed p sent.0 sent.1 more e (subst (Rebuilt p) q (marshal_packet-Rebuilt p h)) fits
