-- ===== src/Action/Ends.antt =====
-- What a run has established when it ends: one rule for each way to build an action.
use uefi_tools_pkg.Base.{ℕ, ◌≡◌, refl, Bool, true, false, if◌then◌else◌}
use uefi_tools_pkg.Action.{Op, Run, done, restarted, Action, pure, call, and_then, ◌>>=◌}

-- `K` holds where the machine restarted, `Q` where the action is done.
pub data Ends {W A : Type 0} (K : ℕ → W → Type 0) (Q : A → W → Type 0) : Run W A → Type 0 where
  finished : {a : A} {w : W} → Q a w → Ends K Q (done a w)
  reset : {t : ℕ} {w : W} → K t w → Ends K Q (restarted t w)

module _ {W : Type 0} {K : ℕ → W → Type 0} where
  pub Ends-pure : {A : Type 0} {Q : A → W → Type 0} (a : A) (w : W) → Q a w → Ends K Q (pure a w)
  unfolding pure
  Ends-pure a w h = finished h

  pub Ends-call :
      {A : Type 0} {Q : A → W → Type 0} (op : Op W A) (w : W)
      → Q (op w).0 (op w).1
      → Ends K Q (call op w)
  unfolding call
  Ends-call op w h = finished h

  pub Ends-if :
      {A : Type 0} {Q : A → W → Type 0} (b : Bool) (m n : Action W A) (w : W)
      → (b ≡ true → Ends K Q (m w))
      → (b ≡ false → Ends K Q (n w))
      → Ends K Q ((if b then m else n) w)
  Ends-if true m n w hm hn = hm refl
  Ends-if false m n w hm hn = hn refl

  Ends-and_then :
      {A B : Type 0} {R : A → W → Type 0} {Q : B → W → Type 0} (r : Run W A) (f : A → Action W B)
      → Ends K R r
      → ((a : A) (w' : W) → R a w' → Ends K Q (f a w'))
      → Ends K Q (and_then r f)
  Ends-and_then (done a w') f (finished q) next = next a w' q
  Ends-and_then (restarted t w') f (reset k) next = reset k

  pub Ends-bind :
      {A B : Type 0} {R : A → W → Type 0} {Q : B → W → Type 0} (m : Action W A) (f : A → Action W B)
      (w : W)
      → Ends K R (m w)
      → ((a : A) (w' : W) → R a w' → Ends K Q (f a w'))
      → Ends K Q ((m >>= f) w)
  unfolding ◌>>=◌
  Ends-bind m f w h next = Ends-and_then (m w) f h next

module _ {W : Type 0} {K : ℕ → W → Type 0} where
  pub Ends-bind_call :
      {A B : Type 0} {Q : B → W → Type 0} (op : Op W A) (f : A → Action W B) (w : W)
      → Ends K Q (f (op w).0 (op w).1)
      → Ends K Q ((call op >>= f) w)
  unfolding ◌>>=◌
  Ends-bind_call op f w next = next

-- Calls that leave a view of the world alone.
module _ {W V : Type 0} (view : W → V) where
  pub Ends-bind_keep :
      {A B : Type 0} {K : ℕ → W → Type 0} {Q : B → W → Type 0} (op : Op W A) (f : A → Action W B)
      (w : W)
      → ((v : W) → view (op v).1 ≡ view v)
      → ((a : A) (w' : W) → view w' ≡ view w → Ends K Q (f a w'))
      → Ends K Q ((call op >>= f) w)
  unfolding ◌>>=◌
  Ends-bind_keep op f w keep next = next (op w).0 (op w).1 (keep w)

module _ {W A : Type 0} {K K' : ℕ → W → Type 0} {Q Q' : A → W → Type 0} where
  pub Ends-mono :
      {r : Run W A}
      → Ends K Q r
      → ((t : ℕ) (w : W) → K t w → K' t w)
      → ((a : A) (w : W) → Q a w → Q' a w)
      → Ends K' Q' r
  Ends-mono (finished q) hk hq = finished (hq _ _ q)
  Ends-mono (reset k) hk hq = reset (hk _ _ k)
