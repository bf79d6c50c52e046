-- ===== src/Requests/Confined.antt =====
-- The handlers of a request server see clean paths only.
use sftp_go.Base.{ℕ, ◌≡◌, refl, true, ◌⊎◌, inl, inr, some, []}
use sftp_go.Wire.{Bytes}
use sftp_go.Paths.{is_abs, clean_path_with_base}
use sftp_go.Paths.Safety.{Clean, clean_path_with_base-Clean}
use sftp_go.Packet.{AttrsField, raw, hardlink, open_file, setstat, rename, symlink}
use sftp_go.Requests.{
  make_symlink, Request, Subject, plain, specific, request_method, subject_path, fill_request,
  attrs_bytes, with_attrs, request_from_packet,
}

-- The packet's attributes, where it has some, are the bytes that the decoder stored.
abbrev pub HasRaw : Subject → Type 0
HasRaw (plain (open_file id path pflags flags attrs)) = (b : Bytes) × (attrs ≡ raw b)
HasRaw (plain (setstat id flags path attrs)) = (b : Bytes) × (attrs ≡ raw b)
HasRaw p = Unit {0}

-- The file path is clean unless the request makes a symbolic link, and the target is clean or absent.
abbrev pub Confined : Request → Type 0
Confined r = (Clean r.filepath ⊎ (r.method ≡ make_symlink)) × (Clean r.target ⊎ (r.target ≡ []))

module _ (base : Bytes) (absolute : is_abs base ≡ true) where
  under : (p : Bytes) → Clean (clean_path_with_base base p)
  under p = clean_path_with_base-Clean base p absolute

  with_attrs-Confined :
      (r : Request) (flags : ℕ) (attrs : AttrsField) (b : Bytes)
      → attrs ≡ raw b
      → Confined r
      → (q : Request) × (with_attrs r flags attrs ≡ some q) × Confined q
  unfolding with_attrs attrs_bytes
  with_attrs-Confined r flags (raw b') b e c = (_, refl, c)
  with_attrs-Confined r flags attrs b e c = absurd (cc e)

  fill_request-Confined :
      (p : Subject) (r : Request)
      → HasRaw p
      → r.method ≡ request_method p
      → Clean r.filepath
      → r.target ≡ []
      → (q : Request) × (fill_request base p r ≡ some q) × Confined q
  unfolding fill_request request_method
  fill_request-Confined (plain (open_file id path pflags flags attrs)) r (b, e) m c t =
      with_attrs-Confined r pflags attrs b e (inl c, inr t)
  fill_request-Confined (plain (setstat id flags path attrs)) r (b, e) m c t =
      with_attrs-Confined r flags attrs b e (inl c, inr t)
  fill_request-Confined (plain (rename id old new)) r h m c t = (_, refl, (inl c, inl (under new)))
  fill_request-Confined (plain (symlink id target link)) r h m c t =
      (_, refl, (inr m, inl (under link)))
  fill_request-Confined (specific (hardlink id ext old new)) r h m c t =
      (_, refl, (inl c, inl (under new)))
  fill_request-Confined p r h m c t = (_, refl, (inl c, inr t))

  -- Whatever path a packet carries, the request that the handlers get has clean absolute paths,
  -- which do not lead out of the root, except for the text of a symbolic link, and making it does
  -- not panic; for a packet with a path, attributes as they were decoded and an absolute start
  -- directory.
  pub request_from_packet-Confined :
      (p : Subject) (path : Bytes)
      → subject_path p ≡ some path
      → HasRaw p
      → (r : Request) × (request_from_packet base p ≡ some r) × Confined r
  unfolding request_from_packet
  request_from_packet-Confined p path e h =
      rw (request_from_packet, e) (fill_request-Confined p _ h refl (under path) refl)
