-- ===== src/LinkedList.antt =====
-- include/jh_list.h: `list<T>`, a doubly linked list between two placeholder nodes, in a heap of
-- nodes. A pointer is a number and NULL is 0. An operation is a function of the heap; `none` is a
-- dereference of NULL or of an address that holds no node, or a `delete` of such an address.
-- What `jh_new` returns is an argument of the operations that allocate. The `val` of a placeholder
-- is never written: `none`.
pub mod Links
pub mod Cells
pub mod Splice
mod Insert
mod Erase
pub mod Place
pub mod Refine
pub mod Loops
mod Destroy
mod Tests
use jhcommon.Prelude.{ℕ, zero, suc, ◌-◌, Bool, Option, none, some, ◌>>=◌, ◌==◌, if◌then◌else◌}

abbrev pub Ptr : Type 0
Ptr = ℕ

pub record Node (A : Type 0) : Type 0 where
  pub val : Option A
  pub next : Ptr
  pub prev : Ptr

pub record JhList : Type 0 where
  pub head : Ptr
  pub tail : Ptr

module _ {A : Type 0} where
  abbrev pub node : Option A → Ptr → Ptr → Node A
  node v n p = record { val = v; next = n; prev = p }

abbrev pub Heap : Type 0 → Type 0
Heap A = Ptr → Option (Node A)

unfoldable pub end : JhList → Ptr
end l = l.tail

unfoldable pub rbegin : JhList → Ptr
rbegin l = l.head

module _ {A : Type 0} where
  unfoldable pub write : Heap A → Ptr → Option (Node A) → Heap A
  write h p c a = if a == p then c else h a

  -- `*p`
  unfoldable pub load : Heap A → Ptr → Option (Node A)
  load h p = if p == 0 then none else h p

  unfoldable pub next_of : Heap A → Ptr → Option Ptr
  next_of h p = load h p >>= λ n. some n.next

  unfoldable pub prev_of : Heap A → Ptr → Option Ptr
  prev_of h p = load h p >>= λ n. some n.prev

  unfoldable pub val_of : Heap A → Ptr → Option (Option A)
  val_of h p = load h p >>= λ n. some n.val

  unfoldable pub set_val : Heap A → Ptr → A → Option (Heap A)
  set_val h p v = load h p >>= λ n. some (write h p (some (record n { val = some v })))

  unfoldable pub set_next : Heap A → Ptr → Ptr → Option (Heap A)
  set_next h p q = load h p >>= λ n. some (write h p (some (record n { next = q })))

  unfoldable pub set_prev : Heap A → Ptr → Ptr → Option (Heap A)
  set_prev h p q = load h p >>= λ n. some (write h p (some (record n { prev = q })))

  -- `new Node` at `a`, its fields not yet written
  unfoldable pub new_node : Heap A → Ptr → Heap A
  new_node h a = write h a (some (node none 0 0))

  unfoldable pub delete : Heap A → Ptr → Option (Heap A)
  delete h p = load h p >>= λ n. some (write h p none)

  -- the constructor, its placeholders at `a` and `b`
  unfoldable pub new_list : Heap A → Ptr → Ptr → Option (JhList × Heap A)
  new_list h a b = do
    h ← set_next (new_node (new_node h a) b) a b
    h ← set_prev h a 0
    h ← set_prev h b a
    h ← set_next h b 0
    some (record { head = a; tail = b }, h)

  unfoldable pub empty : JhList → Heap A → Option Bool
  empty l h = do n ← next_of h l.head; some (n == l.tail)

  unfoldable pub front : JhList → Heap A → Option (Option A)
  front l h = do n ← next_of h l.head; val_of h n

  unfoldable pub back : JhList → Heap A → Option (Option A)
  back l h = do p ← prev_of h l.tail; val_of h p

  -- an iterator is the address of its node
  unfoldable pub begin : JhList → Heap A → Option Ptr
  begin l h = next_of h l.head

  unfoldable pub rend : JhList → Heap A → Option Ptr
  rend l h = prev_of h l.tail

  unfoldable pub step_forward : Ptr → Heap A → Option Ptr
  step_forward i h = if i == 0 then some i else next_of h i

  unfoldable pub step_back : Ptr → Heap A → Option Ptr
  step_back i h = if i == 0 then some i else prev_of h i

  -- `insertAfter` at the iterator `i`, the new node at `a`
  unfoldable pub insert_after : Ptr → A → Ptr → Heap A → Option (Heap A)
  insert_after i v a h = do
    h ← set_val (new_node h a) a v
    h ← set_prev h a i
    n ← next_of h i
    h ← set_next h a n
    n ← next_of h i
    h ← set_prev h n a
    set_next h i a

  unfoldable pub insert_before : Ptr → A → Ptr → Heap A → Option (Heap A)
  insert_before i v a h = do p ← prev_of h i; insert_after p v a h

  unfoldable pub push_front : JhList → A → Ptr → Heap A → Option (Heap A)
  push_front l v a h = do
    h ← set_val (new_node h a) a v
    n ← next_of h l.head
    h ← set_next h a n
    h ← set_prev h a l.head
    n ← next_of h l.head
    h ← set_prev h n a
    set_next h l.head a

  unfoldable pub push_back : JhList → A → Ptr → Heap A → Option (Heap A)
  push_back l v a h = do
    h ← set_val (new_node h a) a v
    p ← prev_of h l.tail
    h ← set_prev h a p
    h ← set_next h a l.tail
    p ← prev_of h l.tail
    h ← set_next h p a
    set_prev h l.tail a

  unfoldable pub pop_front : JhList → Heap A → Option (Heap A)
  pop_front l h = do
    temp ← next_of h l.head
    if temp == l.tail then some h else do
      n ← next_of h temp
      h ← set_next h l.head n
      h ← delete h temp
      n ← next_of h l.head
      set_prev h n l.head

  unfoldable pub pop_back : JhList → Heap A → Option (Heap A)
  pop_back l h = do
    temp ← prev_of h l.tail
    if temp == l.head then some h else do
      p ← prev_of h temp
      h ← set_prev h l.tail p
      h ← delete h temp
      p ← prev_of h l.tail
      set_next h p l.tail

  -- the links of a node taken out, and its `delete`
  unfoldable pub unlink : Ptr → Ptr → Ptr → Heap A → Option (Ptr × Heap A)
  unlink i p n h = do h ← set_next h p n; h ← set_prev h n p; h ← delete h i; some (n, h)

  -- `erase`; on NULL and on a placeholder it returns the iterator itself
  unfoldable pub erase : Ptr → Heap A → Option (Ptr × Heap A)
  erase i h = if i == 0 then some (i, h) else do
    n ← next_of h i
    if n == 0
        then some (i, h)
        else do p ← prev_of h i; if p == 0 then some (i, h) else unlink i p n h

  -- the loops run on fuel; `none` is also its end
  unfoldable pub count_from : ℕ → Ptr → Heap A → Option ℕ
  count_from zero temp h = none
  count_from (suc fuel) temp h =
      if temp == 0 then some 0 else do n ← next_of h temp; ret ← count_from fuel n h; some (suc ret)

  unfoldable pub size : ℕ → JhList → Heap A → Option ℕ
  size fuel l h = do ret ← count_from fuel l.head h; some (ret - 2)

  unfoldable pub clear : ℕ → JhList → Heap A → Option (Heap A)
  clear zero l h = none
  clear (suc fuel) l h = do
    e ← empty l h
    if e then some h else do i ← begin l h; r ← erase i h; clear fuel l (r.1)

  -- the destructor
  unfoldable pub destroy_from : ℕ → Ptr → Heap A → Option (Heap A)
  destroy_from zero p h = none
  destroy_from (suc fuel) p h =
      if p == 0 then some h else do temp ← next_of h p; h ← delete h p; destroy_from fuel temp h

  unfoldable pub destroy : ℕ → JhList → Heap A → Option (Heap A)
  destroy fuel l h = destroy_from fuel l.head h
