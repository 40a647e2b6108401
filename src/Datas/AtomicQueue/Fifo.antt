-- ===== src/Datas/AtomicQueue/Fifo.antt =====
-- What the queue of backend/core/root/datas/atomicqueue promises: a bounded list of values that
-- leave in the order they came, with more values on their way to it.
use poll_bot.Common.{
  ℕ, ◌+◌, ◌<◌, ◌≡◌, sym, ap, ◌∙◌, subst, List, [], ◌∷◌, ◌++◌, length, length-append, arith,
}
use mathlib.Core.List.{append_assoc, append-nil, Sublist}
use mathlib.Core.List.Sublist as S
use poll_bot.Datas.AtomicQueue.Steps.{Event}

pub record Fifo (A : Type 0) : Type 0 where
  pub stored : List A
  pub incoming : List A

pub data FifoStep {A : Type 0} (size : ℕ) : Event A → Fifo A → Fifo A → Type 0 where
  pushes :
      {f : Fifo A} (v : A)
      → FifoStep size (Event.pushed v) f (record f { incoming = f.incoming ++ (v ∷ []) })
  pops :
      {f : Fifo A} (v : A) (rest : List A)
      → f.stored ≡ v ∷ rest
      → FifoStep size (Event.popped v) f (record f { stored = rest })
  drops :
      {f : Fifo A} (v : A) (rest : List A)
      → f.incoming ≡ v ∷ rest
      → length f.stored ≡ size
      → FifoStep size (Event.dropped v) f (record f { incoming = rest })
  stores :
      {f : Fifo A} (v : A) (rest : List A)
      → f.incoming ≡ v ∷ rest
      → length f.stored < size
      → FifoStep size Event.internal f (record { stored = f.stored ++ (v ∷ []); incoming = rest })
  idles : {f : Fifo A} → FifoStep size Event.internal f f

pub data FifoSteps {A : Type 0} (size : ℕ) : List (Event A) → Fifo A → Fifo A → Type 0 where
  stay : {f : Fifo A} → FifoSteps size [] f f
  step :
      {f f' f'' : Fifo A} {e : Event A} {es : List (Event A)}
      → FifoStep size e f f'
      → FifoSteps size es f' f''
      → FifoSteps size (e ∷ es) f f''

-- The values of one kind of event
unfoldable pub pushes_of : {A : Type 0} → List (Event A) → List A
pushes_of [] = []
pushes_of (Event.pushed v ∷ es) = v ∷ pushes_of es
pushes_of (_ ∷ es) = pushes_of es

unfoldable pub pops_of : {A : Type 0} → List (Event A) → List A
pops_of [] = []
pops_of (Event.popped v ∷ es) = v ∷ pops_of es
pops_of (_ ∷ es) = pops_of es

unfoldable pub drops_of : {A : Type 0} → List (Event A) → List A
drops_of [] = []
drops_of (Event.dropped v ∷ es) = v ∷ drops_of es
drops_of (_ ∷ es) = drops_of es

abbrev pub all_of : {A : Type 0} → Fifo A → List A
all_of f = f.stored ++ f.incoming

module _ {A : Type 0} where
  -- The list of a Fifo as each step leaves it, with later pushes behind it.
  pushes-all :
      (f : Fifo A) (v : A) (later : List A)
      → f.stored ++ (f.incoming ++ (v ∷ [])) ++ later ≡ all_of f ++ (v ∷ later)
  pushes-all f v later = simp append_assoc

  stores-all :
      (f : Fifo A) (v : A) (rest : List A)
      → f.incoming ≡ v ∷ rest
      → f.stored ++ (v ∷ []) ++ rest ≡ all_of f
  stores-all f v rest e = simp (append_assoc, e)

  pops-all :
      (f : Fifo A) (v : A) (rest : List A)
      → f.stored ≡ v ∷ rest
      → v ∷ (rest ++ f.incoming) ≡ all_of f
  pops-all f v rest e = simp e

  drops-all :
      (f : Fifo A) (v : A) (rest : List A)
      → f.incoming ≡ v ∷ rest
      → Sublist (f.stored ++ rest) (all_of f)
  drops-all f v rest e =
      S.append (S.refl f.stored) (subst (Sublist rest) (sym e) (S.cons v (S.refl rest)))

  length_all : (f : Fifo A) → length (all_of f) ≡ length f.stored + length f.incoming
  length_all f = length-append f.stored f.incoming

  -- What was popped and what is left is, in order, part of what was there and what was pushed.
  pub order-Sublist :
      (size : ℕ) {es : List (Event A)} {f f' : Fifo A}
      → FifoSteps size es f f'
      → Sublist (pops_of es ++ all_of f') (all_of f ++ pushes_of es)
  unfolding pushes_of pops_of
  order-Sublist size (FifoSteps.stay {f = f}) =
      subst (Sublist (all_of f)) (sym (append-nil (all_of f))) (S.refl (all_of f))
  order-Sublist size (FifoSteps.step {f = f} {f'' = f''} {es = es} (FifoStep.pushes v) rest) =
      subst (Sublist (pops_of es ++ all_of f'')) (pushes-all f v (pushes_of es))
        (order-Sublist size rest)
  order-Sublist size (FifoSteps.step {f = f} {f'' = f''} {es = es} (FifoStep.pops v left e) rest) =
      subst (λ there. Sublist (v ∷ (pops_of es ++ all_of f'')) (there ++ pushes_of es))
        (pops-all f v left e) (S.cons-cons v (order-Sublist size rest))
  order-Sublist size
        (FifoSteps.step {f = f} {f'' = f''} {es = es} (FifoStep.drops v left e at_bound) rest) =
      S.trans (order-Sublist size rest) (S.append (drops-all f v left e) (S.refl (pushes_of es)))
  order-Sublist size
        (FifoSteps.step {f = f} {f'' = f''} {es = es} (FifoStep.stores v left e room) rest) =
      subst (λ there. Sublist (pops_of es ++ all_of f'') (there ++ pushes_of es))
        (stores-all f v left e) (order-Sublist size rest)
  order-Sublist size (FifoSteps.step FifoStep.idles rest) = order-Sublist size rest

  -- Without a drop, nothing is missing.
  pub order_kept :
      (size : ℕ) {es : List (Event A)} {f f' : Fifo A}
      → FifoSteps size es f f'
      → drops_of es ≡ []
      → pops_of es ++ all_of f' ≡ all_of f ++ pushes_of es
  unfolding pushes_of pops_of drops_of
  order_kept size (FifoSteps.stay {f = f}) none_lost = sym (append-nil (all_of f))
  order_kept size (FifoSteps.step {f = f} {f'' = f''} {es = es} (FifoStep.pushes v) rest)
        none_lost =
      order_kept size rest none_lost ∙ pushes-all f v (pushes_of es)
  order_kept size (FifoSteps.step {f = f} {es = es} (FifoStep.pops v left e) rest) none_lost =
      ap (λ vs. v ∷ vs) (order_kept size rest none_lost)
      ∙ ap (λ there. there ++ pushes_of es) (pops-all f v left e)
  order_kept size (FifoSteps.step (FifoStep.drops v left e at_bound) rest) none_lost =
      absurd (cc none_lost)
  order_kept size (FifoSteps.step {f = f} {es = es} (FifoStep.stores v left e room) rest)
        none_lost =
      order_kept size rest none_lost ∙ ap (λ there. there ++ pushes_of es) (stores-all f v left e)
  order_kept size (FifoSteps.step FifoStep.idles rest) none_lost = order_kept size rest none_lost

  pub accounted :
      (size : ℕ) {es : List (Event A)} {f f' : Fifo A}
      → FifoSteps size es f f'
      → length (all_of f) + length (pushes_of es)
        ≡ length (pops_of es) + length (drops_of es) + length (all_of f')
  unfolding pushes_of pops_of drops_of
  accounted size FifoSteps.stay = omega arith
  accounted size (FifoSteps.step {f = f} (FifoStep.pushes v) rest) = omega (
    arith,
    accounted size rest,
    length_all f,
    length-append f.stored (f.incoming ++ (v ∷ [])),
    length-append f.incoming (v ∷ []),
  )
  accounted size (FifoSteps.step {f = f} (FifoStep.pops v left e) rest) =
      omega (arith, accounted size rest, ap length (pops-all f v left e))
  accounted size (FifoSteps.step {f = f} (FifoStep.drops v left e at_bound) rest) =
      omega (arith, accounted size rest, length_all f, length-append f.stored left, ap length e)
  accounted size (FifoSteps.step {f = f} (FifoStep.stores v left e room) rest) =
      omega (arith, accounted size rest, ap length (stores-all f v left e))
  accounted size (FifoSteps.step FifoStep.idles rest) = accounted size rest
