-- ===== src/Cache/Lru.antt =====
-- LRUList of src/cache.rs.
use leveldb_rs.Base.{
  ℕ, ◌+◌, Bool, true, false, Option, none, some, ◌==◌, if◌then◌else◌, assert, checked_sub, ◌>>=◌,
  ◌>>◌,
}

pub record LruNode (A : Type 0) : Type 0 where
  pub next : Option ℕ
  pub prev : Option ℕ
  pub node_data : Option A

-- Addresses from `fresh` on were never given out.
pub record LruList (A : Type 0) : Type 0 where
  pub node : ℕ → Option (LruNode A)
  pub fresh : ℕ
  pub count : ℕ

abbrev pub head : ℕ
head = 0

abbrev pub is_some : {A : Type 0} → Option A → Bool
is_some none = false
is_some (some x) = true

module _ {A : Type 0} where
  unfoldable pub new : LruList A
  new = record {
    node = λ a.
        if a == head then some (record { next = none; prev = none; node_data = none }) else none;
    fresh = 1;
    count = 0;
  }

  -- A write of a node, and the end of a box, at an address.
  abbrev pub put : LruList A → ℕ → Option (LruNode A) → LruList A
  put l a n = record l { node = λ b. if b == a then n else l.node b }

  unfoldable pub set_next : LruList A → ℕ → Option ℕ → Option (LruList A)
  set_next l a p = do n ← l.node a; some (put l a (some (record n { next = p })))

  unfoldable pub set_prev : LruList A → ℕ → Option ℕ → Option (LruList A)
  set_prev l a p = do n ← l.node a; some (put l a (some (record n { prev = p })))

  -- A box of a new node behind the head.
  abbrev pub boxed : A → Option ℕ → LruNode A
  boxed elem next = record { next = next; prev = some head; node_data = some elem }

  unfoldable pub insert : LruList A → A → Option (ℕ × LruList A)
  insert l elem = do
    let newp = l.fresh
    let l0 = record l { fresh = l.fresh + 1; count = l.count + 1 }
    top ← l0.node head
    elim top.next [
      | some first ↦ do
        l1 ← set_prev l0 first (some newp)
        l2 ← set_next (put l1 newp (some (boxed elem (some first)))) head (some newp)
        some (newp, l2)
      | none ↦ do
        l1 ← set_prev (put l0 newp (some (boxed elem none))) head (some newp)
        l2 ← set_next l1 head (some newp)
        some (newp, l2)
    ]

  unfoldable pub remove_last : LruList A → Option (Option A × LruList A)
  remove_last l = elim (l.count == 0) [
    | true ↦ some (none, l)
    | false ↦ do
      top ← l.node head
      tail ← top.prev
      end ← l.node tail
      before ← end.prev
      link ← l.node before
      lasto ← link.next
      l1 ← set_next l before none
      last ← l1.node lasto
      assert (is_some last.prev)
      assert (is_some top.prev)
      l2 ← set_prev l1 head last.prev
      count ← checked_sub l2.count 1
      some (last.node_data, record (put l2 lasto none) { count = count })
  ]

  unfoldable pub remove : LruList A → ℕ → Option (A × LruList A)
  remove l handle = do
    n ← l.node handle
    d ← n.node_data
    let l1 = put l handle (some (record n { node_data = none }))
    before ← n.prev
    link ← l1.node before
    owned ← link.next
    l2 ← set_next l1 before none
    current ← l2.node owned
    prev ← current.prev
    l3 ← elim current.next [ none ↦ some l2 | some next ↦ set_prev l2 next current.prev ]
    l4 ← set_next l3 prev current.next
    count ← checked_sub l4.count 1
    some (d, record (put l4 owned none) { count = count })

  unfoldable pub reinsert_front : LruList A → ℕ → Option (LruList A)
  reinsert_front l handle = do
    n ← l.node handle
    prevp ← n.prev
    l1 ← elim n.next [
      | some next ↦ set_prev l next (some prevp)
      | none ↦ set_prev l head (some prevp)
    ]
    -- The two swaps of `next`.
    this ← l1.node handle
    before ← l1.node prevp
    l2 ← set_next l1 prevp this.next
    l3 ← set_next l2 handle before.next
    moved ← l3.node handle
    top ← l3.node head
    l4 ← set_next l3 handle top.next
    l5 ← set_next l4 head moved.next
    front ← l5.node handle
    l6 ← elim front.next [
      | some newnext ↦ do
        second ← l5.node newnext
        l6 ← set_prev l5 handle second.prev
        set_prev l6 newnext (some handle)
      | none ↦ set_prev l5 head (some handle)
    ]
    end ← l6.node head
    assert (is_some end.next)
    assert (is_some end.prev)
    some l6
