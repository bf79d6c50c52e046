-- ===== src/Requests/Listing.antt =====
-- request.go, `filelist`: a directory listed in batches, with the offset that the open request keeps;
-- and the lister of request-example.go.
pub mod Batches
use sftp_go.Base.{
  ℕ, zero, suc, ◌+◌, Option, none, some, List, [], ◌++◌, length, take, drop, ltb, leb, ◌==◌,
  if◌then◌else◌,
}
use sftp_go.Server.Errors.{GoError, eof}

-- `MaxFilelist`.
abbrev pub max_filelist : ℕ
max_filelist = 100

-- `ListerAt.ListAt`: for the room of the batch and an offset, the entries, which fit the room, and the
-- error beside them.
abbrev pub ListerAt : Type 0 → Type 0
ListerAt I = ℕ → ℕ → List I × Option GoError

-- `listerat.ListAt`.
unfoldable pub list_at : {I : Type 0} → List I → ListerAt I
list_at {I = I} files room offset =
    let found : List I = take room (drop offset files) in
    if leb (length files) offset
    then ([], some eof)
    else if ltb (length found) room
    then (found, some eof)
    else (found, none)

-- The answer to a READDIR: the entries of a name packet, or the error of a status packet.
pub data Batch (I : Type 0) : Type 0 where
  names : List I → Batch I
  refused : GoError → Batch I

module _ {I : Type 0} where
  -- The test on the lister's error: an end of file behind some entries is no error.
  unfoldable pub batch_of : List I × Option GoError → Batch I
  batch_of (found, none) = names found
  batch_of (found, some eof) = if length found == 0 then refused eof else names found
  batch_of (found, some e) = refused e

  -- `filelist` of a listed directory: the answer and the next offset (`lsInc`).
  unfoldable pub filelist : ListerAt I → ℕ → Batch I × ℕ
  filelist lister offset =
      let batch = lister max_filelist offset in (batch_of batch, offset + length batch.0)

  -- The answers to READDIR after READDIR, until one is refused: the entries in order and the error,
  -- if the fuel lasts.
  unfoldable pub list_all : ℕ → ListerAt I → ℕ → List I × Option GoError
  list_all zero lister offset = ([], none)
  list_all (suc fuel) lister offset =
      let (batch, next) = filelist lister offset in
      let (more, end) = list_all fuel lister next in
      elim batch [ names found ↦ (found ++ more, end) | refused e ↦ ([], some e) ]
