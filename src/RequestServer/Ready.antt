-- ===== src/RequestServer/Ready.antt =====
-- request-server.go and request.go: an open request holds exactly the object that its method uses.
pub mod Kept
pub mod Served
pub mod Subjects
pub mod Run
use sftp_go.Base.{
  ℕ, ◌≡◌, ◌≢◌, refl, sym, ◌∙◌, ap, arith, Bool-cases, ◌⊎◌, inl, inr, Option, none, some,
  Option-cases, List, [], ◌∷◌, same_bytes, same_bytes_iff, same_bytes_refl, ◌||◌,
}
use sftp_go.Wire.{Bytes}
use sftp_go.Allocator.{Allocator}
use sftp_go.Packet.Fxf
use sftp_go.Packet.{read, write}
use sftp_go.Requests.{Subject, plain, specific, Method, get, put, open_both, list}
use sftp_go.Server.{Result, good, bad}
use sftp_go.Server.Respond.{has_pflag}
use sftp_go.Server.Handles.{HandleTable, look_up, get_handle, close_handle, next_handle}
use sftp_go.Server.Handles.Fresh.{
  differ, get_handle-next_handle_other, get_handle-next_handle, close_handle_lem,
}
use sftp_go.RequestServer.{Handlers, OpenRequest, unopened}
use sftp_go.RequestServer.Open.{
  Opening, now_open, refuses, with_method, hold, open_to_write, open_to_read, open_for_both,
  open_request, listing, open_directory, asks_to_write, set_lister_at,
}
use sftp_go.RequestServer.Transfer.{
  Called, answers, breaks, Chunk, packet_data, read_object, write_object, fileget, fileput,
  use_both, fileputget,
}
use sftp_go.RequestServer.Call.{list_open, call}
use sftp_go.RequestServer.Worker.{with_handle, next_request, replace, put_back}

-- The fields of the state, each with the object or with nothing.
abbrev pub Fields :
    {O : Type 0} → OpenRequest O → Option O → Option O → Option O → Option O → Type 0
Fields r rd wr both ls =
    (r.reader_at ≡ rd) × (r.writer_at ≡ wr) × (r.writer_at_reader_at ≡ both) × (r.lister_at ≡ ls)

-- The method and the one object that it uses.
pub data Usable {O : Type 0} (r : OpenRequest O) : Type 0 where
  reads : (o : O) → r.request.method ≡ get → Fields r (some o) none none none → Usable r
  writes : (o : O) → r.request.method ≡ put → Fields r none (some o) none none → Usable r
  does_both : (o : O) → r.request.method ≡ open_both → Fields r none none (some o) none → Usable r
  lists : (o : O) → r.request.method ≡ list → Fields r none none none (some o) → Usable r

-- Every request that a handle names is usable, and knows its handle.
abbrev pub AllUsable : {O : Type 0} → HandleTable (OpenRequest O) → Type 0
AllUsable {O} t =
    (k : Bytes) (r : OpenRequest O) → get_handle k t ≡ some r → Usable r × (r.request.handle ≡ k)

module _ {O : Type 0} where
  look_up-replace_other :
      (k h : Bytes) (r : OpenRequest O) (xs : List (Bytes × OpenRequest O))
      → k ≢ h
      → look_up k (replace h r xs) ≡ look_up k xs
  unfolding look_up replace
  look_up-replace_other k h r [] d = refl
  look_up-replace_other k h r ((j, q) ∷ xs) d =
      ground (arith, same_bytes_iff j h, same_bytes_iff j k, look_up-replace_other k h r xs d)

  look_up-replace :
      (h : Bytes) (r q : OpenRequest O) (xs : List (Bytes × OpenRequest O))
      → look_up h xs ≡ some q
      → look_up h (replace h r xs) ≡ some r
  unfolding look_up replace
  look_up-replace h r q [] e = cc
  look_up-replace h r q ((j, q') ∷ xs) e = ground (arith, look_up-replace h r q xs)

  pub get_handle-put_back :
      (h : Bytes) (r q : OpenRequest O) (t : HandleTable (OpenRequest O))
      → get_handle h t ≡ some q
      → get_handle h (put_back h r t) ≡ some r
  unfolding get_handle put_back
  get_handle-put_back h r q t e = look_up-replace h r q t.open_files e

  pub get_handle-put_back_other :
      (k h : Bytes) (r : OpenRequest O) (t : HandleTable (OpenRequest O))
      → k ≢ h
      → get_handle k (put_back h r t) ≡ get_handle k t
  unfolding get_handle put_back
  get_handle-put_back_other k h r t d = look_up-replace_other k h r t.open_files d

  -- A usable request in the place of a known one.
  pub put_back-AllUsable :
      (h : Bytes) (r q : OpenRequest O) (t : HandleTable (OpenRequest O))
      → ((k : Bytes) (r : OpenRequest O)
          → k ≢ h
          → get_handle k t ≡ some r
          → Usable r × (r.request.handle ≡ k))
      → get_handle h t ≡ some q
      → Usable r
      → r.request.handle ≡ h
      → AllUsable (put_back h r t)
  put_back-AllUsable h r q t others e u m k x f = elim (Bool-cases (same_bytes k h)) [
    | inl same ↦
        let p : k ≡ h = (same_bytes_iff k h).0 same in
        let found : some r ≡ some x =
          sym (get_handle-put_back h r q t e)
          ∙ (ap (λ j. get_handle j (put_back h r t)) (sym p) ∙ f) in
        let is_r : r ≡ x = cc in rw (← is_r) (u, m ∙ sym p)
    | inr other ↦
        let d : k ≢ h = differ k h other in
        others k x d (sym (get_handle-put_back_other k h r t d) ∙ f)
  ]

  pub close_handle-AllUsable :
      (h : Bytes) (t : HandleTable (OpenRequest O))
      → ((k : Bytes) (r : OpenRequest O)
          → k ≢ h
          → get_handle k t ≡ some r
          → Usable r × (r.request.handle ≡ k))
      → AllUsable (close_handle h t).1
  close_handle-AllUsable h t others k x f = elim (Bool-cases (same_bytes k h)) [
    | inl same ↦
        let p : k ≡ h = (same_bytes_iff k h).0 same in
        absurd
          (cc (sym f ∙ (ap (λ j. get_handle j (close_handle h t).1) p ∙ (close_handle_lem h t).1)))
    | inr other ↦
        let d : k ≢ h = differ k h other in others k x d (sym ((close_handle_lem h t).2 k d) ∙ f)
  ]

  next_request-eq-next_handle :
      (r : OpenRequest O) (t : HandleTable (OpenRequest O))
      → ((next_request r t).1 ≡ (next_handle (next_request r t).0 t).1)
        × ((next_request r t).0.request.handle ≡ (next_handle (next_request r t).0 t).0)
  unfolding next_request next_handle with_handle
  next_request-eq-next_handle r t = (refl, refl)

  -- A new handle names the new request, and the others what they did.
  pub next_request_lem :
      (r : OpenRequest O) (t : HandleTable (OpenRequest O))
      → (get_handle (next_request r t).0.request.handle (next_request r t).1
          ≡ some (next_request r t).0)
        × ((k : Bytes)
            → k ≢ (next_request r t).0.request.handle
            → get_handle k (next_request r t).1 ≡ get_handle k t)
  next_request_lem r t =
      let (table, name) = next_request-eq-next_handle r t in
      (
        ap (λ k. get_handle k (next_request r t).1) name
            ∙ (ap (get_handle _) table ∙ get_handle-next_handle (next_request r t).0 t),
        λ k d.
            ap (get_handle k) table
            ∙ get_handle-next_handle_other (next_request r t).0 t k (λ e. d (e ∙ sym name)),
      )
