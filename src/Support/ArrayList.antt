-- ===== src/Support/ArrayList.antt =====
-- ArrayList (src/runtime/support/arraylist.h) of pointers: a list in segments, pages of the support pool, with
-- the invariant checks on, as common.h sets them.
--
-- A segment opens with its three pointers and holds 509 elements behind them.
pub mod Segment
pub mod Start
pub mod Back
pub mod Spans
pub mod Frame
pub mod Push
pub mod Extend
pub mod Grow
pub mod First
pub mod Steps
pub mod Front
pub mod Clear
mod Tests
use bsqgc.Prelude.{
  ℕ, zero, suc, ◌+◌, ◌-◌, Bool, true, false, not, ◌&&◌, ◌||◌, ◌==◌, if◌then◌else◌, ltb, leb,
}
use bsqgc.Common.{block_allocation_size}
use bsqgc.Memory.World.{
  World, Run, ok, fault, Cmd, pure, fail, no_fuel, assert, ◌>>=◌, ◌>>◌, load_word, store_word,
}
use bsqgc.Support.Xalloc.{allocate_page, free_page}

pub record ArrayList : Type 0 where
  pub head : ℕ
  pub tail : ℕ
  pub head_min : ℕ
  pub head_max : ℕ
  pub tail_min : ℕ
  pub tail_max : ℕ
  pub head_segment : ℕ
  pub tail_segment : ℕ

-- The fields of ArrayListSegment: data, next and prev.
abbrev pub next_of : ℕ → ℕ
next_of seg = seg + 8

abbrev pub prev_of : ℕ → ℕ
prev_of seg = seg + 16

abbrev pub size_of_segment : ℕ
size_of_segment = 24

unfoldable pub is_empty : ArrayList → Bool
is_empty l = l.head == l.tail

-- The parts of `invariant` that read no segment.
unfoldable pub in_bounds : ArrayList → Bool
in_bounds l =
    not ((l.head_segment == 0) || ((l.head_min == 0) || ((l.head_max == 0) || (l.head == 0))))
    && (not ((l.tail_segment == 0) || ((l.tail_min == 0) || ((l.tail_max == 0) || (l.tail == 0))))
        && (not (ltb l.head l.head_min || leb l.head_max l.head)
            && (not (ltb l.tail l.tail_min || ltb l.tail_max l.tail)
                && not ((l.head_segment == l.tail_segment) && ltb l.tail l.head))))

module _ {F : Type 0} where
  unfoldable pub invariant : ArrayList → Cmd F Bool
  invariant l = if not (in_bounds l) then pure false else do
    prev ← load_word (prev_of l.head_segment)
    next ← load_word (next_of l.tail_segment)
    if not (prev == 0) || not (next == 0)
        then pure false
        else if l.head == l.tail
        then pure (l.head_segment == l.tail_segment)
        else pure true

  -- A new segment behind `prev`.
  unfoldable pub new_segment : (prev : ℕ) → Cmd F ℕ
  new_segment prev = do
    xseg ← allocate_page
    store_word xseg (xseg + size_of_segment)
    store_word (next_of xseg) 0
    store_word (prev_of xseg) prev
    pure xseg

  unfoldable pub initialize_list : ArrayList → Cmd F ArrayList
  unfolding new_segment
  initialize_list unset = do
    assert (
        (unset.head == 0)
        && ((unset.tail == 0) && ((unset.head_segment == 0) && (unset.tail_segment == 0))))
    xseg ← new_segment 0
    let start = xseg + size_of_segment
    let end = xseg + block_allocation_size
    let l : ArrayList = record {
      head = start;
      tail = start;
      head_min = start;
      head_max = end;
      tail_min = start;
      tail_max = end;
      head_segment = xseg;
      tail_segment = xseg;
    }
    good ← invariant l
    assert good
    pure l

  unfoldable pub push_back_slow : ArrayList → ℕ → Cmd F ArrayList
  unfolding new_segment
  push_back_slow l v = do
    assert (l.tail == l.tail_max)
    xseg ← new_segment l.tail_segment
    store_word (next_of l.tail_segment) xseg
    let start = xseg + size_of_segment
    store_word start v
    pure (record l {
      tail_segment = xseg;
      tail_min = start;
      tail_max = xseg + block_allocation_size;
      tail = start + 8;
    })

  unfoldable pub push_back : ArrayList → ℕ → Cmd F ArrayList
  push_back l v = do
    good ← invariant l
    assert good
    if not (l.tail == l.tail_max)
        then (do store_word l.tail v; pure (record l { tail = l.tail + 8 }))
        else push_back_slow l v

  unfoldable pub shift_front_slow : ArrayList → Cmd F ArrayList
  shift_front_slow l = do
    assert (l.head == l.head_max)
    next ← load_word (next_of l.head_segment)
    (if next == 0 then fail else store_word (prev_of next) 0)
    start ← load_word next
    free_page l.head_segment
    pure (record l {
      head_segment = next;
      head_min = start;
      head_max = next + block_allocation_size;
      head = start;
    })

  unfoldable pub pop_front : ArrayList → Cmd F (ℕ × ArrayList)
  pop_front l = do
    assert (not (is_empty l))
    good ← invariant l
    assert good
    res ← load_word l.head
    let l' = record l { head = l.head + 8 }
    l'' ← (if l'.head == l'.head_max then shift_front_slow l' else pure l')
    pure (res, l'')

  unfoldable pub shift_back_slow : ArrayList → Cmd F ArrayList
  shift_back_slow l = do
    assert (l.tail == l.tail_min)
    prev ← load_word (prev_of l.tail_segment)
    (if prev == 0 then fail else store_word (next_of prev) 0)
    start ← load_word prev
    free_page l.tail_segment
    pure (record l {
      tail_segment = prev;
      tail_min = start;
      tail_max = prev + block_allocation_size;
      tail = prev + block_allocation_size;
    })

  unfoldable pub pop_back : ArrayList → Cmd F (ℕ × ArrayList)
  pop_back l = do
    assert (not (is_empty l))
    good ← invariant l
    assert good
    l' ← (if l.tail == l.tail_min then shift_back_slow l else pure l)
    res ← load_word (l'.tail - 8)
    pure (res, record l' { tail = l'.tail - 8 })

  -- The loop of `clear`.
  unfoldable pub free_segments : (fuel seg : ℕ) → Cmd F (Unit {0})
  free_segments zero seg = no_fuel
  free_segments (suc n) seg =
      if seg == 0
      then pure tt
      else do next ← load_word (next_of seg); free_page seg; free_segments n next

  unfoldable pub clear : (fuel : ℕ) → ArrayList → Cmd F ArrayList
  unfolding free_segments
  clear fuel l = do
    good ← invariant l
    assert good
    free_segments fuel l.head_segment
    pure (record {
      head = 0;
      tail = 0;
      head_min = 0;
      head_max = 0;
      tail_min = 0;
      tail_max = 0;
      head_segment = 0;
      tail_segment = 0;
    })
