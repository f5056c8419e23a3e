-- ===== src/World/Laws.antt =====
-- Laws of programs on the state: the parts of a run that returns.
use ipk_projekt.World.{World, Prog, continue}
use ipk_projekt.Base.{Result, ◌≡◌, ok, exits, refl, fault}

pub continue-eq-ok :
    {A B : Type 0} (r : Result A × World) (f : A → Prog B) {b : B} {w' : World}
    → continue r f ≡ (ok b, w')
    → (a : A) × (w : World) × (r ≡ (ok a, w)) × (f a w ≡ (ok b, w'))
continue-eq-ok (ok a, w) f h = (a, w, refl, h)
continue-eq-ok (exits n, w) f h = cc
continue-eq-ok (fault, w) f h = cc

pub continue-continue :
    {A B C : Type 0} (r : Result A × World) (f : A → Prog B) (g : B → Prog C)
    → continue (continue r f) g ≡ continue r (λ a w. continue (f a w) g)
continue-continue (ok a, w) f g = refl
continue-continue (exits n, w) f g = refl
continue-continue (fault, w) f g = refl

pub continue_cong :
    {A B : Type 0} (r : Result A × World) (f g : A → Prog B)
    → ((a : A) (w : World) → f a w ≡ g a w)
    → continue r f ≡ continue r g
continue_cong (ok a, w) f g same = same a w
continue_cong (exits n, w) f g same = refl
continue_cong (fault, w) f g same = refl

pub continue-pure : {A : Type 0} (r : Result A × World) → continue r (λ a w. (ok a, w)) ≡ r
continue-pure (ok a, w) = refl
continue-pure (exits n, w) = refl
continue-pure (fault, w) = refl
