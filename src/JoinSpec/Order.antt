-- ===== src/JoinSpec/Order.antt =====
-- What is gathered for a key does not depend on the order in which its events arrive.
use mathlib.Core.Logic.{∥∥₁_elim}
use confluo.Prelude.{
  suc, length, Text, ◌≡◌, refl, sym, ap, ◌∙◌, none, some, false, List, [], ◌∷◌, arith, inl, inr,
  ◌⊎◌, text_eq, text_eq_iff, text_eq_refl, Text-cases,
}
use mathlib.Core.Logic.Or
use mathlib.Core.List.Perm
use mathlib.Core.Path.{subst}
use mathlib.Core.List.{Mem, Perm, Permᴰ, mem-cons, mem-cons_self, mem-cons_of_mem, not-mem-nil}
use confluo.Prelude.Dict.{Dict, lookup, insert, lookup-insert}
use confluo.JoinSpec.{Arrival}
use confluo.JoinSpec.Rounds.{gather, AreFresh}
use confluo.Projection.Order.{insert-AreDistinct, insert-SameMap, AreDistinct, SameMap}

-- A payload stays in front of fresh events.
gather-keeps :
    (k s p : Text) (d : Dict Text) (as' : List Arrival)
    → AreFresh k d as'
    → lookup s d ≡ some p
    → lookup s (gather d as') ≡ some p
unfolding gather
gather-keeps k s p d [] f e = e
gather-keeps k s p d (a ∷ as') f e =
    gather-keeps k s p (insert a.stream a.payload d) as' f.2
      (ground (arith, lookup-insert a.stream s a.payload d, text_eq_iff a.stream s, f.1))

-- A fresh event's payload is gathered.
gather-mem :
    (k : Text) (x : Arrival) (d : Dict Text) (as' : List Arrival)
    → AreFresh k d as'
    → Mem x as'
    → lookup x.stream (gather d as') ≡ some x.payload
unfolding gather
gather-mem k x d [] f m = absurd (not-mem-nil m)
gather-mem k x d (a ∷ as') f m =
    Or.elim (hlevel) (mem-cons.0 m)
      (λ e. rw e (
        gather-keeps k a.stream a.payload (insert a.stream a.payload d) as' f.2
          (rw (lookup-insert a.stream a.stream a.payload d, text_eq_refl a.stream) refl)))
      (gather-mem k x (insert a.stream a.payload d) as' f.2)

-- A stream without an event keeps what it has.
gather-other :
    (s : Text) (d : Dict Text) (as' : List Arrival)
    → ((x : Arrival) → Mem x as' → text_eq x.stream s ≡ false)
    → lookup s (gather d as') ≡ lookup s d
unfolding gather
gather-other s d [] h = refl
gather-other s d (a ∷ as') h =
    gather-other s (insert a.stream a.payload d) as' (λ x m. h x (mem-cons_of_mem a m))
    ∙ rw (lookup-insert a.stream s a.payload d, h a mem-cons_self) refl

-- A stream has an event, or none has it.
find :
    (s : Text) (as' : List Arrival)
    → ((x : Arrival) × Mem x as' × (x.stream ≡ s))
      ⊎ ((x : Arrival) → Mem x as' → text_eq x.stream s ≡ false)
find s [] = inr (λ x m. absurd (not-mem-nil m))
find s (a ∷ as') = elim (Text-cases a.stream s) [
  | inl e ↦ inl (a, mem-cons_self, e)
  | inr other ↦ elim (find s as') [
    | inl (x, m, e) ↦ inl (x, mem-cons_of_mem a m, e)
    | inr none_of ↦ inr (λ x m. Or.elim (hlevel) (mem-cons.0 m) (λ e. rw e other) (none_of x))
  ]
]

-- Fresh events in two orders gather the same map.
pub gather-SameMap :
    (k : Text) (d : Dict Text) (as' bs : List Arrival)
    → AreFresh k d as'
    → AreFresh k d bs
    → Perm as' bs
    → SameMap (gather d as') (gather d bs)
gather-SameMap k d as' bs f g p s = elim (find s as') [
  | inl (x, m, e) ↦
      subst (λ t. lookup t (gather d as') ≡ lookup t (gather d bs)) e
        (gather-mem k x d as' f m ∙ sym (gather-mem k x d bs g ((Perm.mem_iff p).0 m)))
  | inr none_of ↦
      gather-other s d as' none_of
      ∙ sym (gather-other s d bs (λ x m. none_of x ((Perm.mem_iff p).1 m)))
]

pub gather-AreDistinct :
    (d : Dict Text) (as' : List Arrival) → AreDistinct d → AreDistinct (gather d as')
unfolding gather
gather-AreDistinct d [] h = h
gather-AreDistinct d (a ∷ as') h =
    gather-AreDistinct (insert a.stream a.payload d) as' (insert-AreDistinct a.stream a.payload d h)

AreFresh-SameMap :
    (k : Text) (d e : Dict Text) (as' : List Arrival)
    → SameMap d e
    → AreFresh k d as'
    → AreFresh k e as'
AreFresh-SameMap k d e [] h f = tt
AreFresh-SameMap k d e (a ∷ as') h f = (
  f.0,
  sym (h a.stream) ∙ f.1,
  AreFresh-SameMap k (insert a.stream a.payload d) (insert a.stream a.payload e) as'
      (insert-SameMap a.stream a.payload d e h) f.2,
)

insert-swap :
    (d : Dict Text) (a b : Arrival)
    → lookup b.stream (insert a.stream a.payload d) ≡ none
    → SameMap
        (insert b.stream b.payload (insert a.stream a.payload d))
        (insert a.stream a.payload (insert b.stream b.payload d))
insert-swap d a b n k = ground (
  arith,
  lookup-insert b.stream k b.payload (insert a.stream a.payload d),
  lookup-insert a.stream k a.payload d,
  lookup-insert a.stream k a.payload (insert b.stream b.payload d),
  lookup-insert b.stream k b.payload d,
  lookup-insert a.stream b.stream a.payload d,
  n,
  text_eq_iff a.stream k,
  text_eq_iff b.stream k,
  text_eq_refl a.stream,
)

AreFresh-swap :
    (k : Text) (d : Dict Text) (a b : Arrival) (l : List Arrival)
    → AreFresh k d (a ∷ b ∷ l)
    → AreFresh k d (b ∷ a ∷ l)
AreFresh-swap k d a b l (ea, na, (eb, nb, f)) = (
  eb,
  ground (arith, lookup-insert a.stream b.stream a.payload d, nb),
  (
    ea,
    ground (
      arith,
      lookup-insert a.stream b.stream a.payload d,
      lookup-insert b.stream a.stream b.payload d,
      na,
      nb,
      text_eq_iff a.stream b.stream,
      text_eq_iff b.stream a.stream,
    ),
    AreFresh-SameMap k (insert b.stream b.payload (insert a.stream a.payload d))
        (insert a.stream a.payload (insert b.stream b.payload d)) l (insert-swap d a b nb) f,
  ),
)

AreFresh-permᴰ :
    (k : Text) (d : Dict Text) {as' bs : List Arrival}
    → Permᴰ as' bs
    → AreFresh k d as'
    → AreFresh k d bs
AreFresh-permᴰ k d Permᴰ.nil f = tt
AreFresh-permᴰ k d (Permᴰ.cons {a} e p) f =
    rw (← e) (f.0, f.1, AreFresh-permᴰ k (insert a.stream a.payload d) p f.2)
AreFresh-permᴰ k d (Permᴰ.swap {a} {b} {l} e g) f = rw (← e, ← g) (AreFresh-swap k d a b l f)
AreFresh-permᴰ k d (Permᴰ.trans p q) f = AreFresh-permᴰ k d q (AreFresh-permᴰ k d p f)

AreFresh-prop : (k : Text) (d : Dict Text) (as' : List Arrival) → IsProp (AreFresh k d as')
AreFresh-prop k d [] = hlevel
AreFresh-prop k d (a ∷ as') = let ih = AreFresh-prop k (insert a.stream a.payload d) as' in hlevel

-- Fresh events stay fresh in another order.
pub AreFresh-perm :
    (k : Text) (d : Dict Text) (as' bs : List Arrival)
    → Perm as' bs
    → AreFresh k d as'
    → AreFresh k d bs
AreFresh-perm k d as' bs p f = ∥∥₁_elim p (AreFresh-prop k d bs) (λ q. AreFresh-permᴰ k d q f)

length-permᴰ : {as' bs : List Arrival} → Permᴰ as' bs → length as' ≡ length bs
length-permᴰ Permᴰ.nil = refl
length-permᴰ (Permᴰ.cons e p) = ap suc (length-permᴰ p)
length-permᴰ (Permᴰ.swap e g) = refl
length-permᴰ (Permᴰ.trans p q) = length-permᴰ p ∙ length-permᴰ q

pub length-perm : (as' bs : List Arrival) → Perm as' bs → length as' ≡ length bs
length-perm as' bs p = ∥∥₁_elim p (hlevel) length-permᴰ
