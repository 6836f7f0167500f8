-- ===== src/Lifecycle/Rows.antt =====
-- How the rows of backups evolve under updates, insertions and several transactions.
use mathlib.Core.Path.{subst}
use onlybackup.Prelude.{
  String, ◌≡◌, refl, Bool, true, false, List, [], ◌∷◌, ◌++◌, update, map, if◌then◌else◌,
}
use onlybackup.Model.Types.{Instant, Backup}
use onlybackup.Catalog.Rows.{Evolves, done, row}
use onlybackup.Lifecycle.Edge.{Follows, Follows-refl, IsNew}

abbrev pub Keeps : (String → Instant → Type 0) → List Backup → List Backup → Type 0
Keeps P = Evolves (Follows P) IsNew

pub Keeps-refl : {P : String → Instant → Type 0} (bs : List Backup) → Keeps P bs bs
Keeps-refl [] = done tt
Keeps-refl (b ∷ bs) = row (Follows-refl b) (Keeps-refl bs)

pub Keeps-map :
    {P : String → Instant → Type 0} (f : Backup → Backup) (bs : List Backup)
    → ((b : Backup) → Follows P b (f b))
    → Keeps P bs (map f bs)
Keeps-map f [] h = done tt
Keeps-map f (b ∷ bs) h = row (h b) (Keeps-map f bs h)

Follows-if :
    {P : String → Instant → Type 0} (c : Bool) (b b' : Backup)
    → (c ≡ true → Follows P b b')
    → Follows P b (if c then b' else b)
Follows-if true b b' h = h refl
Follows-if false b b' h = Follows-refl b

pub Keeps-update :
    {P : String → Instant → Type 0} (p : Backup → Bool) (f : Backup → Backup) (bs : List Backup)
    → ((b : Backup) → p b ≡ true → Follows P b (f b))
    → Keeps P bs (update p f bs)
unfolding update
Keeps-update p f [] h = done tt
Keeps-update p f (b ∷ bs) h = row (Follows-if (p b) b (f b) (h b)) (Keeps-update p f bs h)

pub Keeps-append :
    {P : String → Instant → Type 0} (b : Backup) (bs : List Backup)
    → IsNew b
    → Keeps P bs (bs ++ b ∷ [])
Keeps-append b [] h = done (h, tt)
Keeps-append b (c ∷ bs) h = row (Follows-refl c) (Keeps-append b bs h)

pub Keeps-of_eq : {P : String → Instant → Type 0} {as' bs : List Backup} → bs ≡ as' → Keeps P as' bs
Keeps-of_eq {P} {as'} {bs} h = rw h (Keeps-refl as')

pub Keeps-from :
    {P : String → Instant → Type 0} {as' bs cs : List Backup}
    → bs ≡ as'
    → Keeps P bs cs
    → Keeps P as' cs
Keeps-from {P} {as'} {bs} {cs} e k = subst (λ x. Keeps P x cs) e k
