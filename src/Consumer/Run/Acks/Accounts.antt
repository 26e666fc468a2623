-- ===== src/Consumer/Run/Acks/Accounts.antt =====
-- Which commits a stretch of the consumer's run acknowledges.
use mathlib.Core.List.{reverse_aux, reverse_aux-append, Sublistᴰ}
use mathlib.Core.List.Sublistᴰ
use confluo.Prelude.{◌≡◌, refl, sym, ◌∙◌, ap, List, [], ◌∷◌, ◌++◌, All, All-mono, All-append}
use confluo.Fault.{Error, Result, ok, err}
use confluo.Consumer.{Handler, handle}
use confluo.Consumer.Run.{Resolver, record_from_kgo}
use confluo.World.{KafkaRecord, Services, World, History, Go, ◌>>=◌}
use confluo.World.Extends.{Extends, Extends-refl, Extends-trans}
use confluo.Consumer.Run.Acks.{acked, after_attempts, Behind, Behind-Extends}

module _ (get : Resolver) (env : Services) where
  -- A reason for a commit that stands in a history: before it, the handler of the record took it
  -- without an error; or it has none.
  pub data Earned (h : History) (rec : KafkaRecord) : Type 0 where
    taken :
        (hd : Handler) (w : World)
        → get (record_from_kgo rec) ≡ ok hd
        → (handle hd (record_from_kgo rec) env w).0 ≡ ok tt
        → Behind rec (handle hd (record_from_kgo rec) env w).1.history h
        → Earned h rec
    unknown : (e : Error) → get (record_from_kgo rec) ≡ err e → Earned h rec

  pub Earned-Extends :
      {h h' : History} → Extends h h' → (rec : KafkaRecord) → Earned h rec → Earned h' rec
  Earned-Extends x rec (taken hd w g e b) = taken hd w g e (Behind-Extends rec x b)
  Earned-Extends x rec (unknown e g) = unknown e g

  -- From one history to another, the acknowledged commits are of some of the given records, in their
  -- order, each with a reason.
  pub record Accounted (recs : List KafkaRecord) (h h' : History) : Type 0 where
    pub grown : Extends h h'
    pub chosen : List KafkaRecord
    pub in_order : Sublistᴰ chosen recs
    pub newest : acked h' ≡ reverse_aux chosen (acked h)
    pub earned : All (Earned h') chosen

  pub nothing-Accounted :
      (recs : List KafkaRecord) (h h' : History)
      → acked h' ≡ acked h
      → Extends h h'
      → Accounted recs h h'
  nothing-Accounted recs h h' e x = record {
    grown = x;
    chosen = [];
    in_order = Sublistᴰ.nil-sublist recs;
    newest = e;
    earned = tt;
  }

  pub rest-Accounted : (recs : List KafkaRecord) (h : History) → Accounted recs h h
  rest-Accounted recs h = nothing-Accounted recs h h refl (Extends-refl h)

  pub passed-Accounted :
      (rec : KafkaRecord) (recs : List KafkaRecord) (h h1 h' : History)
      → acked h1 ≡ acked h
      → Extends h h1
      → Accounted recs h1 h'
      → Accounted (rec ∷ recs) h h'
  passed-Accounted rec recs h h1 h' e x a = record {
    grown = Extends-trans x a.grown;
    chosen = a.chosen;
    in_order = Sublistᴰ.cons a.in_order;
    newest = a.newest ∙ ap (reverse_aux a.chosen) e;
    earned = a.earned;
  }

  pub acked-Accounted :
      (rec : KafkaRecord) (recs : List KafkaRecord) (h h1 h' : History)
      → acked h1 ≡ rec ∷ acked h
      → Extends h h1
      → Earned h1 rec
      → Accounted recs h1 h'
      → Accounted (rec ∷ recs) h h'
  acked-Accounted rec recs h h1 h' e x g a = record {
    grown = Extends-trans x a.grown;
    chosen = rec ∷ a.chosen;
    in_order = Sublistᴰ.cons-cons refl a.in_order;
    newest = a.newest ∙ ap (reverse_aux a.chosen) e;
    earned = (Earned-Extends a.grown rec g, a.earned);
  }

  pub after_attempts-Accounted :
      (rec : KafkaRecord) (recs : List KafkaRecord) (h h' : History) (r : Result (Unit {0}))
      → acked h' ≡ after_attempts rec r (acked h)
      → Extends h h'
      → Earned h' rec
      → Accounted (rec ∷ recs) h h'
  after_attempts-Accounted rec recs h h' (ok u) e x g =
      acked-Accounted rec recs h h' h' e x g (rest-Accounted recs h')
  after_attempts-Accounted rec recs h h' (err z) e x g = nothing-Accounted (rec ∷ recs) h h' e x

  append-Accounted :
      (xs ys : List KafkaRecord) (h h1 h' : History)
      → Accounted xs h h1
      → Accounted ys h1 h'
      → Accounted (xs ++ ys) h h'
  append-Accounted xs ys h h1 h' a b = record {
    grown = Extends-trans a.grown b.grown;
    chosen = a.chosen ++ b.chosen;
    in_order = Sublistᴰ.append a.in_order b.in_order;
    newest =
        b.newest
        ∙ ap (reverse_aux b.chosen) a.newest
        ∙ sym (reverse_aux-append a.chosen b.chosen (acked h));
    earned =
        All-append (Earned h') a.chosen b.chosen
          (All-mono (Earned-Extends b.grown) a.chosen a.earned) b.earned;
  }

  module _ {A B : Type 0} (xs ys : List KafkaRecord) (f : A → Go B)
      (next : (a : A) (w' : World) → Accounted ys w'.history (f a env w').1.history) where
    continued-Accounted :
        (h : History) (r : Result A) (w' : World)
        → Accounted xs h w'.history
        → Accounted
            (xs ++ ys)
            h
            ((elim r as (λ x. Result B × World) [ ok a ↦ f a env w' | err e ↦ (err e, w') ]).1
              ).history
    continued-Accounted h (ok a) w' x = append-Accounted xs ys h w'.history _ x (next a w')
    continued-Accounted h (err e) w' x =
        append-Accounted xs ys h w'.history w'.history x (rest-Accounted ys w'.history)

    pub bind-Accounted :
        (m : Go A) (w : World)
        → Accounted xs w.history (m env w).1.history
        → Accounted (xs ++ ys) w.history ((m >>= f) env w).1.history
    bind-Accounted m w x = continued-Accounted w.history (m env w).0 (m env w).1 x
