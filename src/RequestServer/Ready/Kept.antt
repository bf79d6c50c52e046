-- ===== src/RequestServer/Ready/Kept.antt =====
-- request.go: what `open`, `opendir` and `call` leave an open request with.
use sftp_go.Base.{ℕ, ◌≡◌, refl, Bool-cases, inl, inr, Option, none, some, Option-cases, length, ltb}
use sftp_go.Allocator.{Allocator}
use sftp_go.Packet.Fxf
use sftp_go.Packet.{read, write}
use sftp_go.Requests.{Subject, plain, specific}
use sftp_go.Requests.Listing.{max_filelist}
use sftp_go.Response.{Response}
use sftp_go.Server.{Result, good, bad}
use sftp_go.Server.Respond.{has_pflag}
use sftp_go.RequestServer.{Handlers, OpenRequest}
use sftp_go.RequestServer.Open.{
  Opening, now_open, refuses, with_method, hold, open_to_write, open_to_read, open_for_both,
  open_request, listing, open_directory, asks_to_write, set_lister_at,
}
use sftp_go.RequestServer.Transfer.{
  Called, answers, breaks, Chunk, may_answer, read_object, write_object, fileget, fileput, use_both,
  fileputget,
}
use sftp_go.RequestServer.Call.{list_open, call}
use sftp_go.RequestServer.Answers.{Gives, KeepsInterfaces}
use sftp_go.RequestServer.Ready.{Fields, Usable, reads, writes, does_both, lists}

-- What `open` and `opendir` make of a new request.
abbrev pub ReadyTo : {W O : Type 0} → OpenRequest O → Opening W O → Type 0
ReadyTo r (now_open r' w) = Usable r' × (r'.request.handle ≡ r.request.handle)
ReadyTo r (refuses e r' w) = Unit {0}

-- What `call` leaves of an open request.
abbrev pub Keeps : {W O : Type 0} → OpenRequest O → Called W O → Type 0
Keeps r (answers reply r' alloc w) = Usable r' × (r'.request.handle ≡ r.request.handle)
Keeps r breaks = Unit {0}

module _ {W O I : Type 0} (h : Handlers W O I) (keeps : KeepsInterfaces h) (r : OpenRequest O) where
  abbrev Empty : Type 0
  Empty = Fields r none none none none

  hold-ReadyTo :
      (put_in : Option O → OpenRequest O → OpenRequest O) (r' : OpenRequest O)
      (x : Result (Option O) × W)
      → ((o : O)
          → Usable (put_in (some o) r') × ((put_in (some o) r').request.handle ≡ r.request.handle))
      → Gives x
      → ReadyTo r (hold put_in r' x)
  unfolding hold
  hold-ReadyTo put_in r' (good none, w) u g = elim g [ ]
  hold-ReadyTo put_in r' (good (some o), w) u g = u o
  hold-ReadyTo put_in r' (bad e, w) u g = tt

  open_to_write-ReadyTo : (w : W) → Empty → ReadyTo r (open_to_write h r w)
  unfolding open_to_write with_method
  open_to_write-ReadyTo w (a, b, c, d) =
      hold-ReadyTo _ _ _ (λ o. (writes o refl (a, refl, c, d), refl)) (keeps.gives_writer _ w)

  open_to_read-ReadyTo : (w : W) → Empty → ReadyTo r (open_to_read h r w)
  unfolding open_to_read with_method
  open_to_read-ReadyTo w (a, b, c, d) =
      hold-ReadyTo _ _ _ (λ o. (reads o refl (refl, b, c, d), refl)) (keeps.gives_reader _ w)

  open_for_both-ReadyTo : (w : W) → Empty → ReadyTo r (open_for_both h r w)
  unfolding open_for_both with_method
  open_for_both-ReadyTo w (a, b, c, d) = elim (Option-cases h.openfile) [
    | inl e ↦ simp (open_for_both, e) (open_to_write-ReadyTo w (a, b, c, d))
    | inr (f, e) ↦
        simp (open_for_both, e)
          (hold-ReadyTo _ _ _ (λ o. (does_both o refl (a, b, refl, d), refl))
            (keeps.gives_both f e _ w))
  ]

  pub open_request-ReadyTo : (w : W) → Empty → ReadyTo r (open_request h r w)
  unfolding open_request
  open_request-ReadyTo w v = elim (Bool-cases (asks_to_write r.request.flags)) [
    | inl a ↦ elim (Bool-cases (has_pflag r.request.flags Fxf.read)) [
      | inl b ↦ simp (open_request, a, b) (open_for_both-ReadyTo w v)
      | inr b ↦ simp (open_request, a, b) (open_to_write-ReadyTo w v)
    ]
    | inr a ↦ elim (Bool-cases (has_pflag r.request.flags Fxf.read)) [
      | inl b ↦ simp (open_request, a, b) (open_to_read-ReadyTo w v)
      | inr b ↦ simp (open_request, a, b) tt
    ]
  ]

  listing-ReadyTo :
      (r' : OpenRequest O) (x : Result (Option O) × W)
      → ((o : O) → Usable (set_lister_at (some o) r') × (r'.request.handle ≡ r.request.handle))
      → Gives x
      → ReadyTo r (listing h r' x)
  unfolding listing
  listing-ReadyTo r' (good none, w) u g = elim g [ ]
  listing-ReadyTo r' (good (some o), w) u g = u o
  listing-ReadyTo r' (bad e, w) u g = tt

  pub open_directory-ReadyTo : (w : W) → Empty → ReadyTo r (open_directory h r w)
  unfolding open_directory with_method
  open_directory-ReadyTo w (a, b, c, d) =
      listing-ReadyTo _ _ (λ o. (lists o refl (a, b, c, refl), refl)) (keeps.gives_lister _ w)

-- `call` leaves the request as it was.
abbrev Same : {W O : Type 0} → OpenRequest O → Called W O → Type 0
Same r (answers reply r' alloc w) = r' ≡ r
Same r breaks = Unit {0}

module _ {W O I : Type 0} (h : Handlers W O I) (r : OpenRequest O) where
  Same-Keeps : (c : Called W O) → Same r c → Usable r → Keeps r c
  Same-Keeps (answers reply r' alloc w) e u = rw e (u, refl)
  Same-Keeps breaks e u = tt

  may_answer-Same :
      (alloc : Option Allocator) (w : W) (x : Option Response) → Same r (may_answer h r alloc w x)
  unfolding may_answer
  may_answer-Same alloc w none = tt
  may_answer-Same alloc w (some reply) = refl

  read_object-Same :
      (id : ℕ) (o : O) (d : Option (Chunk × Option Allocator)) (w : W)
      → Same r (read_object h id r o d w)
  unfolding read_object
  read_object-Same id o none w = tt
  read_object-Same id o (some (c, alloc)) w = may_answer-Same alloc _ _

  write_object-Same :
      (id : ℕ) (o : O) (d : Option (Chunk × Option Allocator)) (w : W)
      → Same r (write_object h id r o d w)
  unfolding write_object
  write_object-Same id o none w = tt
  write_object-Same id o (some (c, alloc)) w = refl

  use_both-Same :
      (o : O) (p : Subject) (alloc : Option Allocator) (order_id max_tx : ℕ) (w : W)
      → Same r (use_both h r o p alloc order_id max_tx w)
  unfolding use_both
  use_both-Same o (plain (read id len offset handle)) alloc order_id max_tx w =
      read_object-Same id o _ w
  use_both-Same o (plain (write id len offset handle content)) alloc order_id max_tx w =
      write_object-Same id o _ w
  use_both-Same o (plain p) alloc order_id max_tx w = refl
  use_both-Same o (specific s) alloc order_id max_tx w = refl

  pub call-Keeps :
      (p : Subject) (alloc : Option Allocator) (order_id max_tx : ℕ) (w : W)
      → Usable r
      → Keeps r (call h r p alloc order_id max_tx w)
  unfolding call fileget fileput fileputget list_open
  call-Keeps p alloc order_id max_tx w (reads o m (e, b, c, d)) =
      simp (call, m, fileget, e) (Same-Keeps _ (read_object-Same _ o _ w) (reads o m (e, b, c, d)))
  call-Keeps p alloc order_id max_tx w (writes o m (a, e, c, d)) =
      simp (call, m, fileput, e)
        (Same-Keeps _ (write_object-Same _ o _ w) (writes o m (a, e, c, d)))
  call-Keeps p alloc order_id max_tx w (does_both o m (a, b, e, d)) =
      simp (call, m, fileputget, e)
        (Same-Keeps _ (use_both-Same o p alloc order_id max_tx w) (does_both o m (a, b, e, d)))
  call-Keeps p alloc order_id max_tx w (lists o m (a, b, c, e)) =
      elim (Bool-cases
        (ltb max_filelist (length (h.object_list_at o max_filelist r.lsoffset w).0.0))) [
          | inl over ↦ simp (call, m, list_open, e, over) tt
          | inr few ↦ simp (call, m, list_open, e, few) (lists o m (a, b, c, refl), refl)
        ]
