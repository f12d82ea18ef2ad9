-- ===== src/Registry/Walk.antt =====
-- `WalkImages` of lib/registry/repository.go: ten goroutines fetch the images of a repository's tags.
-- A step relation over the state that the goroutines share: any of them may move at any time. The two
-- channels are lists within their capacities, and a send or receive waits where Go's does. The walk is
-- modelled from the point where `AllTags` has returned the tags. The workers share the variable `err` of
-- the walk: one assigns it with its image, and then reads it, when another may have assigned it. An
-- assignment of the two results of `Image`, and a read, are each one step.
pub mod Deadlock
pub mod Invariant
pub mod Progress
pub mod Race
use dim.Prelude.{
  ℕ, ◌-◌, ◌<◌, String, ◌≡◌, Bool, true, false, Option, none, some, List, [], ◌∷◌, ◌++◌, length,
  replicate,
}
use dim.Prelude.Errors.{Error, Result, ok, err}

-- Where one of the ten workers is: waiting for a tag, holding one that it has received, before the test
-- of `err` with its own `img`, holding an `img` to send, at the end of the loop before `wg.Done()`, or
-- returned. `img` is a pointer, which may be nil.
pub data Worker (Image : Type 0) : Type 0 where
  waiting : Worker Image
  fetching : String → Worker Image
  checking : Option Image → Worker Image
  sending : Option Image → Worker Image
  leaving : Worker Image
  returned : Worker Image

-- `pending` are the tags that the goroutine that feeds the workers has still to send; then it closes
-- `ch`, waits for the group and closes `images`. `received` is what the caller has read, in order.
pub record State (Image : Type 0) : Type 0 where
  pub pending : List String
  pub ch : List String
  pub ch_closed : Bool
  pub workers : List (Worker Image)
  pub error : Option Error
  pub wait_group : ℕ
  pub images : List (Option Image)
  pub images_closed : Bool
  pub received : List (Option Image)

abbrev pub start : {Image : Type 0} → List String → State Image
start tags = record {
  pending = tags;
  ch = [];
  ch_closed = false;
  workers = replicate 10 waiting;
  error = none;
  wait_group = 10;
  images = [];
  images_closed = false;
  received = [];
}

-- One worker, between the others.
abbrev pub at_work :
    {Image : Type 0}
    → List (Worker Image)
    → Worker Image
    → List (Worker Image)
    → List (Worker Image)
at_work before w after = before ++ w ∷ after

-- `image` is what `r.Image` returns for a tag, and `partial` the `img` that it returns next to an error: nil,
-- or what was read of an image that could not be decoded.
module _ {Image : Type 0} (image : String → Result Image) (partial : String → Option Image) where
  pub data Step (s : State Image) : State Image → Type 0 where
    -- `ch <- tag`, into a buffer of 10
    feed :
        (tag : String) (rest : List String)
        → s.pending ≡ tag ∷ rest
        → length s.ch < 10
        → Step s (record s { pending = rest; ch = s.ch ++ tag ∷ [] })
    -- `close(ch)` after the last tag
    close_ch : s.pending ≡ [] → s.ch_closed ≡ false → Step s (record s { ch_closed = true })
    -- `for tag := range ch`
    take_tag :
        (before after : List (Worker Image)) (tag : String) (rest : List String)
        → s.workers ≡ at_work before waiting after
        → s.ch ≡ tag ∷ rest
        → Step s (record s { ch = rest; workers = at_work before (fetching tag) after })
    end_range :
        (before after : List (Worker Image))
        → s.workers ≡ at_work before waiting after
        → s.ch ≡ []
        → s.ch_closed ≡ true
        → Step s (record s { workers = at_work before leaving after })
    -- `img, err = r.Image(tag)`, which succeeds
    fetched :
        (before after : List (Worker Image)) (tag : String) (img : Image)
        → s.workers ≡ at_work before (fetching tag) after
        → image tag ≡ ok img
        → Step s (record s { workers = at_work before (checking (some img)) after; error = none })
    -- It fails.
    failed :
        (before after : List (Worker Image)) (tag : String) (e : Error)
        → s.workers ≡ at_work before (fetching tag) after
        → image tag ≡ err e
        → Step s
            (record s { workers = at_work before (checking (partial tag)) after; error = some e })
    -- `err != nil`: `return`, past the end of the loop and its `wg.Done()`
    give_up :
        (before after : List (Worker Image)) (img : Option Image) (e : Error)
        → s.workers ≡ at_work before (checking img) after
        → s.error ≡ some e
        → Step s (record s { workers = at_work before returned after })
    go_on :
        (before after : List (Worker Image)) (img : Option Image)
        → s.workers ≡ at_work before (checking img) after
        → s.error ≡ none
        → Step s (record s { workers = at_work before (sending img) after })
    -- `images <- img`, into a buffer of 3
    send_image :
        (before after : List (Worker Image)) (img : Option Image)
        → s.workers ≡ at_work before (sending img) after
        → length s.images < 3
        → Step s
            (record s { workers = at_work before waiting after; images = s.images ++ img ∷ [] })
    -- `wg.Done()`
    leave :
        (before after : List (Worker Image))
        → s.workers ≡ at_work before leaving after
        → Step s
            (record s { workers = at_work before returned after; wait_group = s.wait_group - 1 })
    -- `wg.Wait()` returns and `images` is closed
    close_images :
        s.ch_closed ≡ true
        → s.wait_group ≡ 0
        → s.images_closed ≡ false
        → Step s (record s { images_closed = true })
    -- The caller reads an image.
    receive :
        (img : Option Image) (rest : List (Option Image))
        → s.images ≡ img ∷ rest
        → Step s (record s { images = rest; received = s.received ++ img ∷ [] })

  pub data Reach (tags : List String) : State Image → Type 0 where
    here : Reach tags (start tags)
    next : {s t : State Image} → Reach tags s → Step s t → Reach tags t
