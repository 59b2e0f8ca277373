-- ===== src/SedaTimer/Lists.antt =====
-- The two lists of a SedaTimerQueue, which share the links of its timers.
use zrsocket.Base.{
  suc, ◌+◌, ◌<◌, ◌^◌, ◌≡◌, ◌⊎◌, inl, inr, refl, sym, ◌∙◌, subst, Bool, true, false, none, List, ◌∷◌,
  ◌++◌, length, ◌==◌, arith,
}
use zrsocket.TimerList.{Ptr, Links, TimerList, alone_node}
use zrsocket.TimerList.Chain
use zrsocket.TimerList.Chain.{has, distinct, or_self, first, last, Same, has-append}
use zrsocket.TimerList.Distinct.{
  apart, test_sym, length-insert, distinct-at, out_between, ne_between, in_between, still_out,
  between-cases, has-here,
}
use zrsocket.TimerList.Model.{Rep, Fresh}
use zrsocket.TimerList.Ops.{Becomes}

-- A list does not see a change of links that are not its own.
pub Rep-frame :
    (l : TimerList) (h h' : Links) (xs : List Ptr)
    → Rep l h xs
    → Same h h' l.head
    → ((y : Ptr) → has y xs ≡ true → Same h h' y)
    → Rep l h' xs
Rep-frame l h h' xs r at_head same = record {
  linked = Chain.frame h h' none xs none r.linked same;
  head_next = at_head.next ∙ r.head_next;
  head_prev = at_head.prev ∙ r.head_prev;
  size = r.size;
  outside = r.outside;
  once = r.once;
  small = r.small;
}

-- The lists a and b hold the timers xs and ys, and have no timer in common.
pub record Two (a b : TimerList) (h : Links) (xs ys : List Ptr) : Type 0 where
  pub left : Rep a h xs
  pub right : Rep b h ys
  pub apart : (y : Ptr) → has y xs ≡ true → has y ys ≡ false
  pub left_head : has a.head ys ≡ false
  pub right_head : has b.head xs ≡ false
  pub heads : (a.head == b.head) ≡ false
  pub room : suc (length xs + length ys) < 2 ^ 32

module _ {a b : TimerList} {h : Links} {xs ys : List Ptr} (two : Two a b h xs ys) where
  flip : (y : Ptr) (c : Bool) → has y xs ≡ c → has y ys ≡ true → has y xs ≡ false
  flip y true e i = absurd (ground (arith, two.apart y e, i))
  flip y false e i = e

  pub Two-swap : Two b a h ys xs
  Two-swap = record {
    left = two.right;
    right = two.left;
    apart = λ y i. flip y (has y xs) refl i;
    left_head = two.right_head;
    right_head = two.left_head;
    heads = test_sym a.head b.head two.heads;
    room = omega (arith, two.room);
  }

-- t is in neither list.
pub record Out (a b : TimerList) (h : Links) (xs ys : List Ptr) (t : Ptr) : Type 0 where
  pub two : Two a b h xs ys
  pub not_left : has t xs ≡ false
  pub not_right : has t ys ≡ false
  pub not_left_head : (t == a.head) ≡ false
  pub not_right_head : (t == b.head) ≡ false
  pub more_room : suc (suc (length xs + length ys)) < 2 ^ 32

ne_of_has : (y x : Ptr) (ys : List Ptr) → has y ys ≡ true → has x ys ≡ false → (y == x) ≡ false
ne_of_has = apart

-- What is done to the left list leaves the right one as it is.
right-kept :
    (a b : TimerList) (h : Links) (ys xs' zs : List Ptr) (s : TimerList × Links)
    → Rep b h ys
    → Becomes a.head h xs' zs s
    → ((y : Ptr) → has y ys ≡ true → has y zs ≡ false)
    → has a.head ys ≡ false
    → has b.head zs ≡ false
    → (b.head == a.head) ≡ false
    → Rep b s.1 ys
right-kept a b h ys xs' zs s r now others a_out b_out ne =
    Rep-frame b h s.1 ys r (now.frame b.head b_out ne)
      (λ y i. now.frame y (others y i) (ne_of_has y a.head ys i a_out))

-- A timer leaves the left list.
pub leaves :
    {a b : TimerList} {h : Links} {ys : List Ptr} (t : Ptr) (us vs : List Ptr)
    (s : TimerList × Links)
    → Two a b h (us ++ t ∷ vs) ys
    → Becomes a.head h (us ++ vs) (us ++ t ∷ vs) s
    → Out s.0 b s.1 (us ++ vs) ys t
leaves {a} {b} {h} {ys} t us vs s two now =
    let few = length-insert t us vs in
    record {
      two = record {
        left = now.rep;
        right =
            right-kept a b h ys (us ++ vs) (us ++ t ∷ vs) s two.right now (Two-swap two).apart
              two.left_head two.right_head (test_sym a.head b.head two.heads);
        apart = λ y i. two.apart y (in_between y t us vs i);
        left_head = subst (λ p. has p ys ≡ false) (sym now.same_head) two.left_head;
        right_head = out_between b.head t us vs two.right_head;
        heads = subst (λ p. (p == b.head) ≡ false) (sym now.same_head) two.heads;
        room = omega (arith, two.room, few);
      };
      not_left = distinct-at t us vs two.left.once;
      not_right = two.apart t (has-here t us vs);
      not_left_head =
          subst (λ p. (t == p) ≡ false) (sym now.same_head)
            (test_sym a.head t (ne_between a.head t us vs two.left.outside));
      not_right_head = test_sym b.head t (ne_between b.head t us vs two.right_head);
      more_room = omega (arith, two.room, few);
    }

-- A timer that is in no list comes into the left list.
pub comes :
    {a b : TimerList} {h : Links} {ys : List Ptr} (t : Ptr) (us vs : List Ptr)
    (s : TimerList × Links)
    → Out a b h (us ++ vs) ys t
    → Becomes a.head h (us ++ t ∷ vs) (us ++ t ∷ vs) s
    → Two s.0 b s.1 (us ++ t ∷ vs) ys
comes {a} {b} {h} {ys} t us vs s o now = record {
  left = now.rep;
  right =
      right-kept a b h ys (us ++ t ∷ vs) (us ++ t ∷ vs) s two.right now
        (λ y i. still_out y t us vs (apart y t ys i o.not_right) ((Two-swap two).apart y i))
        two.left_head b_out (test_sym a.head b.head two.heads);
  apart = λ y i. kept y (between-cases y t us vs i);
  left_head = subst (λ p. has p ys ≡ false) (sym now.same_head) two.left_head;
  right_head = b_out;
  heads = subst (λ p. (p == b.head) ≡ false) (sym now.same_head) two.heads;
  room = omega (arith, o.more_room, length-insert t us vs);
}
  where
    open o use {two}

    b_out : has b.head (us ++ t ∷ vs) ≡ false
    b_out = still_out b.head t us vs (test_sym t b.head o.not_right_head) two.right_head

    kept : (y : Ptr) → (y ≡ t) ⊎ (has y (us ++ vs) ≡ true) → has y ys ≡ false
    kept y (inl e) = subst (λ x. has x ys ≡ false) (sym e) o.not_right
    kept y (inr i) = two.apart y i

pub Out-swap :
    {a b : TimerList} {h : Links} {xs ys : List Ptr} {t : Ptr}
    → Out a b h xs ys t
    → Out b a h ys xs t
Out-swap o = record {
  two = Two-swap o.two;
  not_left = o.not_right;
  not_right = o.not_left;
  not_left_head = o.not_right_head;
  not_right_head = o.not_left_head;
  more_room = omega (arith, o.more_room);
}

-- What is done to the links of t alone does not matter to the lists.
pub Out-alone :
    {a b : TimerList} {h : Links} {xs ys : List Ptr} {t : Ptr}
    → Out a b h xs ys t
    → Out a b (alone_node t h) xs ys t
Out-alone {a} {b} {h} {xs} {ys} {t} o = record {
  two = record {
    left =
        Rep-frame a h (alone_node t h) xs o.two.left
          (same a.head (test_sym t a.head o.not_left_head))
          (λ y i. same y (ne_of_has y t xs i o.not_left));
    right =
        Rep-frame b h (alone_node t h) ys o.two.right
          (same b.head (test_sym t b.head o.not_right_head))
          (λ y i. same y (ne_of_has y t ys i o.not_right));
    apart = o.two.apart;
    left_head = o.two.left_head;
    right_head = o.two.right_head;
    heads = o.two.heads;
    room = o.two.room;
  };
  not_left = o.not_left;
  not_right = o.not_right;
  not_left_head = o.not_left_head;
  not_right_head = o.not_right_head;
  more_room = o.more_room;
}
  where
    same : (y : Ptr) → (y == t) ≡ false → Same h (alone_node t h) y
    same y ne = record { prev = ground arith; next = ground arith }

pub Out-Fresh :
    {a b : TimerList} {h : Links} {xs ys : List Ptr} {t : Ptr} → Out a b h xs ys t → Fresh a xs t
Out-Fresh o = record {
  not_in = o.not_left;
  not_head = o.not_left_head;
  room = omega (arith, o.more_room);
}

pub empty-cons :
    {l : TimerList} {h : Links} (t : Ptr) (xs : List Ptr) → Rep l h (t ∷ xs) → (l.size == 0) ≡ false
empty-cons t xs r = ground (arith, r.size)
