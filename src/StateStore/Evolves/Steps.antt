-- ===== src/StateStore/Evolves/Steps.antt =====
-- The relation that each statement keeps: that of Relation, and the constraints of Sound.
use failroom.StateStore.Tx.{Db, Tx, Outcome, done, fail, deny}
use failroom.StateStore.Tx.Rules.{IsPreorder, Keeps, After}
use failroom.StateStore.Evolves.Relation.{Evolves, Evolves-refl, Evolves-trans}
use failroom.StateStore.Evolves.Sound.{Sound}

pub record Steps (s t : Db) : Type 0 where
  pub evolves : Evolves s t
  pub sound : Sound s → Sound t

pub Steps-refl : (s : Db) → Steps s s
Steps-refl s = record { evolves = Evolves-refl s; sound = λ h. h }

pub Steps-trans : (s t u : Db) → Steps s t → Steps t u → Steps s u
Steps-trans s t u f g = record {
  evolves = Evolves-trans s t u f.evolves g.evolves;
  sound = λ h. g.sound (f.sound h);
}

pub Steps-IsPreorder : IsPreorder Steps
Steps-IsPreorder = record { same = Steps-refl; then_ = Steps-trans }

After-Evolves : {A : Type 0} (s : Db) (o : Outcome A) → After Steps s o → After Evolves s o
After-Evolves s (done a t) h = h.evolves
After-Evolves s (fail e) h = tt
After-Evolves s (deny e t) h = h.evolves

pub Keeps-Evolves : {A : Type 0} {m : Tx A} → Keeps Steps m → Keeps Evolves m
Keeps-Evolves {A} {m} k = record { at = λ s. After-Evolves s (m s) (k.at s) }
