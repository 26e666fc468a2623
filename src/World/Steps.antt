-- ===== src/World/Steps.antt =====
-- What a program without an error went through.
use confluo.Prelude.{String, ◌≡◌, ◌∙◌, refl, ap, Option, none, some, [], ◌∷◌, arith}
use confluo.Fault.{Error, Result, ok, err, from_error}
use confluo.World.Events.{Services, World, Cluster, Definition, opened, defined}
use confluo.World.Program.{Go, ◌>>◌, wrap, wrap_result}
use confluo.World.Calls.{open_session, define}

module _ {ℓ} {B : Type ℓ} (m : Go (Unit {0})) (k : Go B) (env : Services) where
  -- It came to a world, and the rest went on from there.
  abbrev Passed : World → B × World → Type ℓ
  Passed w (b, w') = (w1 : World) × (m env w ≡ (ok tt, w1)) × (k env w1 ≡ (ok b, w'))

  passed :
      (w : World) (o : B × World) (p : Result (Unit {0}) × World)
      → m env w ≡ p
      → (elim p.0 as (λ x. Result B × World) [ ok a ↦ k env p.1 | err e ↦ (err e, p.1) ])
        ≡ (ok o.0, o.1)
      → Passed w o
  passed w o (ok tt, w1) q h = (w1, q, h)
  passed w o (err x, w1) q h = absurd (cc h)

  pub then_ok : (w : World) (b : B) (w' : World) → (m >> k) env w ≡ (ok b, w') → Passed w (b, w')
  then_ok w b w' e = passed w (b, w') (m env w) refl e

-- A call that is wrapped and has no error was answered by none.
answered :
    (s : String) (o : Option Error) (w1 w2 : World)
    → ◌≡◌ {A = Result (Unit {0}) × World} (wrap_result s [] (from_error o), w1) (ok tt, w2)
    → (o ≡ none) × (w2.history ≡ w1.history)
answered s none w1 w2 e = (refl, ground arith)
answered s (some x) w1 w2 e = absurd (cc e)

module _ (env : Services) (s : String) (w w2 : World) where
  pub opened_ok :
      (c : Cluster)
      → wrap s (open_session c) env w ≡ (ok tt, w2)
      → w2.history ≡ opened c none ∷ w.history
  opened_ok c e = let (n, h) = answered s _ _ w2 e in h ∙ ap (λ o. opened c o ∷ w.history) n

  pub defined_ok :
      (d : Definition)
      → wrap s (define d) env w ≡ (ok tt, w2)
      → w2.history ≡ defined d none ∷ w.history
  defined_ok d e = let (n, h) = answered s _ _ w2 e in h ∙ ap (λ o. defined d o ∷ w.history) n
