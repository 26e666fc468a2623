-- ===== src/World/Extends.antt =====
-- A history that has grown: calls are added, and none is taken back.
use confluo.Prelude.{◌≡◌, refl, sym, ap, ◌∙◌, List, [], ◌∷◌, ◌++◌}
use mathlib.Core.List.{append_assoc}
use confluo.World.Events.{History, Event, Statement, executed, committed}
use confluo.World.Calls.{exec}
use confluo.World.Keeps.{Keeps, IsCalm, KeptByCommits, Keeps-exec}

abbrev pub Extends : History → History → Type 0
Extends h h' = (more : List Event) × (h' ≡ more ++ h)

pub Extends-refl : (h : History) → Extends h h
Extends-refl h = ([], refl)

pub Extends-trans : {h h1 h' : History} → Extends h h1 → Extends h1 h' → Extends h h'
Extends-trans {h} (xs, e) (ys, e') =
    (ys ++ xs, e' ∙ ap (λ l. ys ++ l) e ∙ sym (append_assoc ys xs h))

pub Extends-call : {h h' : History} (e : Event) → Extends h h' → Extends h (e ∷ h')
Extends-call e (more, same) = (e ∷ more, ap (λ l. e ∷ l) same)

module _ (h : History) where
  pub Extends-IsCalm : IsCalm (Extends h)
  Extends-IsCalm = record { step = λ e h' _ x. Extends-call e x }

  pub Extends-KeptByCommits : KeptByCommits (Extends h)
  Extends-KeptByCommits rec h' r x = Extends-call (committed rec r) x

  pub statement-Extends : (s : Statement) → Keeps (Extends h) (exec s)
  statement-Extends s = Keeps-exec s (λ h' r x. Extends-call (executed s r) x)
