-- ===== src/RequestServer/Holding.antt =====
-- request.go: the readers, writers and listers that an open request holds, how they are closed and how
-- they learn of a broken transfer.
use sftp_go.Base.{Option, none, some}
use sftp_go.Server.Errors.{GoError}
use sftp_go.RequestServer.{Handlers, OpenRequest}

-- The first error that is not nil.
unfoldable pub first_error : Option GoError → Option GoError → Option GoError
first_error none e = e
first_error (some e) e' = some e

module _ {W O I : Type 0} (h : Handlers W O I) where
  -- `if c, ok := o.(io.Closer); ok { c.Close() }`, on a field that may be nil.
  unfoldable pub close_object : Option O → W → Option GoError × W
  close_object none w = (none, w)
  close_object (some o) w = elim (h.closer o) [ none ↦ (none, w) | some close ↦ close w ]

  -- `closeListerAt`.
  unfoldable pub close_lister_at : OpenRequest O → W → Option GoError × (OpenRequest O × W)
  close_lister_at r w =
      let (e, w') = close_object r.lister_at w in (e, (record r { lister_at = none }, w'))

  -- One more object to close; its error counts if there was none.
  unfoldable pub close_next : Option O → Option GoError × W → Option GoError × W
  close_next o (e, w) = let (e2, w') = close_object o w in (first_error e e2, w')

  -- `Request.close`, with the request's context left out: the lister, the writer, the now_open file and
  -- the reader. The code forgets the now_open file when it is closed and there was no error so far, in a
  -- request that nothing refers to any more.
  unfoldable pub close_open_request : OpenRequest O → W → Option GoError × W
  close_open_request r w =
      let (e, (r', w')) = close_lister_at r w in
      close_next r'.reader_at (close_next r'.writer_at_reader_at (close_next r'.writer_at (e, w')))

  unfoldable pub tell : GoError → Option O → W → W
  tell e none w = w
  tell e (some o) w = elim (h.transfer_errors o) [ none ↦ w | some notify ↦ notify e w ]

  -- `transferError`.
  unfoldable pub transfer_error : Option GoError → OpenRequest O → W → W
  transfer_error none r w = w
  transfer_error (some e) r w =
      tell e r.reader_at (tell e r.writer_at_reader_at (tell e r.writer_at w))
