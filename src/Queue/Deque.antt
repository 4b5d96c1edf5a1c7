-- ===== src/Queue/Deque.antt =====
-- The deque of libcds as a parameter, and the member functions of `ThreadSafeQueue` over it.
use ss_logger_cpp.Prelude.{◌≡◌, List, [], ◌∷◌, ◌++◌, Option, none, some}

-- What `cds::container::FCDeque` documents: a linearizable double-ended queue. Each call is one
-- step on its contents; a pop gives `none` and changes nothing on the empty deque.
pub record FcDeque (A : Type 0) : Type 1 where
  pub Deque : Type 0
  pub empty : Deque
  pub push_back : Deque → A → Deque
  pub push_front : Deque → A → Deque
  pub pop_front : Deque → Option (A × Deque)
  pub pop_back : Deque → Option (A × Deque)
  pub contents : Deque → List A
  pub empty_contents : contents empty ≡ []
  pub push_back_contents : (d : Deque) (a : A) → contents (push_back d a) ≡ contents d ++ a ∷ []
  pub push_front_contents : (d : Deque) (a : A) → contents (push_front d a) ≡ a ∷ contents d
  pub pop_front_none : (d : Deque) → pop_front d ≡ none → contents d ≡ []
  pub pop_front_some :
      (d e : Deque) (a : A) → pop_front d ≡ some (a, e) → contents d ≡ a ∷ contents e
  pub pop_back_none : (d : Deque) → pop_back d ≡ none → contents d ≡ []
  pub pop_back_some :
      (d e : Deque) (a : A) → pop_back d ≡ some (a, e) → contents d ≡ contents e ++ a ∷ []

module _ {A : Type 0} (dq : FcDeque A) where
  -- The constructor.
  unfoldable pub new_queue : dq.Deque
  new_queue = dq.empty

  -- `PushBack`, `PushFront`.
  unfoldable pub push_back : dq.Deque → A → dq.Deque
  push_back q value = dq.push_back q value

  unfoldable pub push_front : dq.Deque → A → dq.Deque
  push_front q value = dq.push_front q value

  -- `PopFront`, `PopBack`: the queue behind the call and its result.
  abbrev pub popped : dq.Deque → Option (A × dq.Deque) → Option A × dq.Deque
  popped q none = (none, q)
  popped q (some (value, rest)) = (some value, rest)

  unfoldable pub pop_front : dq.Deque → Option A × dq.Deque
  pop_front q = popped q (dq.pop_front q)

  unfoldable pub pop_back : dq.Deque → Option A × dq.Deque
  pop_back q = popped q (dq.pop_back q)

  -- `CopyFrontAndRotateToBack`.
  abbrev pub put_back : Option A × dq.Deque → Option A × dq.Deque
  put_back (none, q) = (none, q)
  put_back (some value, q) = (some value, push_back q value)

  unfoldable pub copy_front_and_rotate_to_back : dq.Deque → Option A × dq.Deque
  copy_front_and_rotate_to_back q = put_back (pop_front q)
