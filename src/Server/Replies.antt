-- ===== src/Server/Replies.antt =====
-- What every request gets: one response with its own id, and one step of the handle table.
pub mod Dispatched
use sftp_go.Base.{
  ℕ, ◌+◌, ◌≤◌, ◌≡◌, refl, sym, ap, ◌∙◌, arith, Bool, true, false, not, ◌&&◌, Bool-cases, ◌⊎◌, inl,
  inr, Option, none, some, Option-cases, List, [], ◌∷◌, length, ltb, ◌==◌, if◌then◌else◌,
}
use sftp_go.Attrs.Total.{unmarshal_file_stat-ne-panic}
use sftp_go.Server.Errors
use sftp_go.Wire.{Bytes, Read, ok, fail, panic}
use sftp_go.Attrs.{FileStat, unmarshal_file_stat, attr_permissions, has_any}
use sftp_go.Paths.{to_local_path}
use sftp_go.Allocator.{Allocator}
use sftp_go.Packet.{
  Packet, Specific, specific_id, posix_rename, hardlink, init, lstat, open_file, close, read, write,
  fstat, setstat, fsetstat, opendir, readdir, remove, mkdir, rmdir, realpath, stat, rename,
  readlink, symlink, extended, packet_id, AttrsField, raw, file_stat, file_info, other,
}
use sftp_go.Packet
use sftp_go.Packet.Frame.{max_msg_length}
use sftp_go.Response.{Response, response_id}
use sftp_go.Response
use sftp_go.Server.{Result, good, bad, Os, Server, Handled, responds, crashes}
use sftp_go.Server.Errors.{GoError, eof, status_from_error}
use sftp_go.Server.Handles.{HandleTable, next_handle, close_handle, get_handle}
use sftp_go.Server.Respond.{
  attrs_file_stat, file_set_stat, set_stat, open_access, opened, open_with, after_call, status_of,
  listed, respond_open, respond_readdir, respond_setstat, respond_fsetstat,
}
use sftp_go.Server.Dispatch.{
  get_data_slice, stat_answer, readlink_answer, realpath_answer, opendir_answer, handle_close,
  read_answer, handle_read, handle_write, statvfs_answer, respond_extended, handle_packet,
  serve_packet, seems_readonly,
}

-- What one request does to the handle table: nothing, one file opened, or one handle closed.
pub data TableStep {F : Type 0} (t : HandleTable F) : HandleTable F → Type 0 where
  stays : TableStep t t
  opens : (f : F) → TableStep t (next_handle f t).1
  closes : (handle : Bytes) → TableStep t (close_handle handle t).1

-- The response to the request `id` and the server after it; no panic.
abbrev pub Replied : {W F : Type 0} → ℕ → Server W F → Handled W F → Type 0
Replied id s (responds r s') =
    (response_id r ≡ id)
    × TableStep s.handles s'.handles
    × (s'.read_only ≡ s.read_only)
    × (s'.work_dir ≡ s.work_dir)
    × (s'.max_tx_packet ≡ s.max_tx_packet)
Replied id s crashes = ⊥

-- The reads fit a page, or there are no pages.
abbrev pub FitsPage : {W F : Type 0} → Server W F → Type 0
FitsPage s = (s.alloc ≡ none) ⊎ (s.max_tx_packet ≤ max_msg_length)

module _ {W F I : Type 0} (os : Os W F I) where
  pub status_id : (id : ℕ) (e : Option GoError) → response_id (status_of os id e) ≡ id
  unfolding status_from_error response_id
  status_id id none = refl
  status_id id (some e) = refl

  pub status_Replied :
      (id : ℕ) (e : Option GoError) (s : Server W F) → Replied id s (responds (status_of os id e) s)
  status_Replied id e s = (status_id id e, stays, refl, refl, refl)

  pub after_call-Replied :
      (id : ℕ) (s : Server W F) (r : Option GoError × W) → Replied id s (after_call os id s r)
  after_call-Replied id s (e, w) = (status_id id e, stays, refl, refl, refl)

  pub stat_Replied :
      (id : ℕ) (s : Server W F) (r : Result I × W) → Replied id s (stat_answer os id s r)
  unfolding stat_answer response_id
  stat_Replied id s (good i, w) = (refl, stays, refl, refl, refl)
  stat_Replied id s (bad e, w) = after_call-Replied id s (some e, w)

  pub readlink_Replied :
      (id : ℕ) (s : Server W F) (r : Result Bytes × W) → Replied id s (readlink_answer os id s r)
  unfolding readlink_answer response_id
  readlink_Replied id s (good f, w) = (refl, stays, refl, refl, refl)
  readlink_Replied id s (bad e, w) = after_call-Replied id s (some e, w)

  pub realpath_Replied :
      (id : ℕ) (s : Server W F) (r : Result Bytes × W) → Replied id s (realpath_answer os id s r)
  unfolding realpath_answer response_id
  realpath_Replied id s (good f, w) = (refl, stays, refl, refl, refl)
  realpath_Replied id s (bad e, w) = after_call-Replied id s (some e, w)

  pub opened-Replied :
      (id : ℕ) (s : Server W F) (r : Result F × W) → Replied id s (opened os id s r)
  unfolding opened response_id
  opened-Replied id s (good f, w) = (refl, opens f, refl, refl, refl)
  opened-Replied id s (bad e, w) = after_call-Replied id s (some e, w)

  -- The attributes of a request decode to a FileStat or an error.
  pub attrs_cases :
      (flags : ℕ) (attrs : AttrsField)
      → ((fs : FileStat) × (attrs_file_stat flags attrs ≡ some (good fs)))
        ⊎ ((e : GoError) × (attrs_file_stat flags attrs ≡ some (bad e)))
  unfolding attrs_file_stat
  attrs_cases flags (file_stat fs) = inl (fs, refl)
  attrs_cases flags (raw b) = decoded (unmarshal_file_stat flags b) refl
    where
      decoded :
          (r : Read FileStat)
          → unmarshal_file_stat flags b ≡ r
          → ((fs : FileStat) × (attrs_file_stat flags (raw b) ≡ some (good fs)))
            ⊎ ((e : GoError) × (attrs_file_stat flags (raw b) ≡ some (bad e)))
      decoded (ok fs rest) e = inl (fs, rw (attrs_file_stat, e) refl)
      decoded (fail err) e = inr (Errors.wire err, rw (attrs_file_stat, e) refl)
      decoded panic e = absurd (unmarshal_file_stat-ne-panic flags b e)
  attrs_cases flags (file_info fs) = inr (_, refl)
  attrs_cases flags (other v) = inr (_, refl)

  pub open_Replied :
      (id : ℕ) (path : Bytes) (pflags flags : ℕ) (attrs : AttrsField) (s : Server W F)
      → Replied id s (respond_open os id path pflags flags attrs s)
  unfolding respond_open open_with
  open_Replied id path pflags flags attrs s = elim (Option-cases (open_access pflags)) [
    | inl e ↦ rw (respond_open, e) (status_Replied id _ s)
    | inr (access, e) ↦ elim (Bool-cases (has_any flags attr_permissions)) [
      | inl p ↦ elim (attrs_cases flags attrs) [
        | inl (fs, a) ↦ rw (respond_open, e, p, a) (opened-Replied id s _)
        | inr (err, a) ↦ rw (respond_open, e, p, a) (status_Replied id _ s)
      ]
      | inr p ↦ rw (respond_open, e, p) (opened-Replied id s _)
    ]
  ]

  pub listed-Replied :
      (id : ℕ) (s : Server W F) (r : Result (List I) × W) → Replied id s (listed os id s r)
  unfolding listed response_id
  listed-Replied id s (good infos, w) = (refl, stays, refl, refl, refl)
  listed-Replied id s (bad e, w) = after_call-Replied id s (some e, w)

  pub readdir_Replied :
      (id : ℕ) (handle : Bytes) (s : Server W F) → Replied id s (respond_readdir os id handle s)
  unfolding respond_readdir
  readdir_Replied id handle s = elim (Option-cases (get_handle handle s.handles)) [
    | inl e ↦ rw (respond_readdir, e) (status_Replied id _ s)
    | inr (f, e) ↦ rw (respond_readdir, e) (listed-Replied id s _)
  ]

  pub setstat_Replied :
      (id flags : ℕ) (path : Bytes) (attrs : AttrsField) (s : Server W F)
      → Replied id s (respond_setstat os id flags path attrs s)
  unfolding respond_setstat
  setstat_Replied id flags path attrs s = elim (attrs_cases flags attrs) [
    | inl (fs, a) ↦
        rw (respond_setstat, a)
          (after_call-Replied id s (set_stat os (to_local_path s.work_dir path) flags fs s.world))
    | inr (err, a) ↦ rw (respond_setstat, a) (status_Replied id _ s)
  ]

  pub fsetstat_Replied :
      (id flags : ℕ) (handle : Bytes) (attrs : AttrsField) (s : Server W F)
      → Replied id s (respond_fsetstat os id flags handle attrs s)
  unfolding respond_fsetstat
  fsetstat_Replied id flags handle attrs s = elim (Option-cases (get_handle handle s.handles)) [
    | inl e ↦ rw (respond_fsetstat, e) (status_Replied id _ s)
    | inr (f, e) ↦ elim (attrs_cases flags attrs) [
      | inl (fs, a) ↦
          rw (respond_fsetstat, e, a)
            (after_call-Replied id s (file_set_stat os f flags fs s.world))
      | inr (err, a) ↦ rw (respond_fsetstat, e, a) (status_Replied id _ s)
    ]
  ]
