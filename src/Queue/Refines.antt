-- ===== src/Queue/Refines.antt =====
-- The wrapper over the deque of libcds beside the queue of its values.
use ss_logger_cpp.Prelude.{◌≡◌, refl, List, [], Option, none, some}
use ss_logger_cpp.Queue.Contents
use ss_logger_cpp.Queue.Contents.{taken, pop_back-append}
use ss_logger_cpp.Queue.Deque.{
  FcDeque, new_queue, push_back, push_front, pop_front, pop_back, copy_front_and_rotate_to_back,
}

module _ {A : Type 0} (dq : FcDeque A) where
  -- What a caller sees of a result and the queue behind it.
  abbrev pub seen : Option A × dq.Deque → Option A × List A
  seen r = (r.0, dq.contents r.1)

  pop_front_seen :
      (q : dq.Deque)
      → seen (pop_front dq q) ≡ taken (dq.contents q) (Contents.pop_front (dq.contents q))
  unfolding pop_front Contents.pop_front
  pop_front_seen q = go (dq.pop_front q) refl
    where
      go :
          (r : Option (A × dq.Deque))
          → dq.pop_front q ≡ r
          → seen (pop_front dq q) ≡ taken (dq.contents q) (Contents.pop_front (dq.contents q))
      go none e = rw (e, pop_front, dq.pop_front_none q e)
      go (some (a, d)) e = rw (e, pop_front, dq.pop_front_some q d a e)

  pop_back_seen :
      (q : dq.Deque)
      → seen (pop_back dq q) ≡ taken (dq.contents q) (Contents.pop_back (dq.contents q))
  unfolding pop_back
  pop_back_seen q = go (dq.pop_back q) refl
    where
      go :
          (r : Option (A × dq.Deque))
          → dq.pop_back q ≡ r
          → seen (pop_back dq q) ≡ taken (dq.contents q) (Contents.pop_back (dq.contents q))
      go none e = rw (e, pop_back, dq.pop_back_none q e) (unfold Contents.pop_back in refl)
      go (some (a, d)) e =
          rw (e, pop_back, dq.pop_back_some q d a e, pop_back-append (dq.contents d) a)

  -- The member functions of `ThreadSafeQueue` do to the values what the list operations do, for
  -- every deque that meets the documented contract of `FCDeque`: both pops give nothing and change
  -- nothing exactly on the empty queue, and the rotation gives the front value and moves it to the
  -- back.
  pub queue-refines :
      (q : dq.Deque) (a : A)
      → (dq.contents (new_queue dq) ≡ [])
        × (dq.contents (push_back dq q a) ≡ Contents.push_back (dq.contents q) a)
        × (dq.contents (push_front dq q a) ≡ Contents.push_front (dq.contents q) a)
        × (seen (pop_front dq q) ≡ taken (dq.contents q) (Contents.pop_front (dq.contents q)))
        × (seen (pop_back dq q) ≡ taken (dq.contents q) (Contents.pop_back (dq.contents q)))
        × (seen (copy_front_and_rotate_to_back dq q) ≡ Contents.rotate (dq.contents q))
  unfolding new_queue push_back push_front copy_front_and_rotate_to_back pop_front
      Contents.push_back Contents.push_front Contents.rotate
  queue-refines q a = (
    dq.empty_contents,
    dq.push_back_contents q a,
    dq.push_front_contents q a,
    pop_front_seen q,
    pop_back_seen q,
    go (dq.pop_front q) refl,
  )
    where
      go :
          (r : Option (A × dq.Deque))
          → dq.pop_front q ≡ r
          → seen (copy_front_and_rotate_to_back dq q) ≡ Contents.rotate (dq.contents q)
      go none e = rw (e, copy_front_and_rotate_to_back, pop_front, dq.pop_front_none q e)
      go (some (v, d)) e = rw (
        e,
        copy_front_and_rotate_to_back,
        pop_front,
        dq.pop_front_some q d v e,
        dq.push_back_contents d v,
      )
