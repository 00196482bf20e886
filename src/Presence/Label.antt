-- ===== src/Presence/Label.antt =====
-- What labelling the current location leaves in the tables and in the file.
use rpinode.Presence.{
  Site, Presence, Db, State, Gsm, has_gsm, is_automatic, find_site, note_presence,
}
use rpinode.Presence.Cell.{IsLinked}
use rpinode.Presence.Tables.{AreSites}
use rpinode.Rows.{select}
use rpinode.Text.{Text}
use rpinode.Prelude.{ℕ, ◌≡◌, Bool, true, ◌||◌, Option, some, [], ◌∷◌, ◌==◌, All}

-- A presence that is current is that of this node on this site.
abbrev pub IsHere : Text → ℕ → Presence → Type 0
IsHere host site p = p.is_current ≡ true → (p.host ≡ host) × (p.site_id ≡ site)

-- What a label with this name leaves.
pub record IsLabelled (gsm : Gsm) (host : Text) (boot : Option Text) (name : Text)
    (provisional : Bool) (st st' : State) : Type 0 where
  pub site : Site
  pub kept : AreSites st'.db
  pub filed :
      st'.current
      ≡ some (record {
        id = site.id;
        name = name;
        is_provisional = provisional || is_automatic name;
        boot_id = boot;
      })
  pub stored : find_site (λ s. s.id == site.id) st'.db.sites ≡ some site
  pub named : site.name ≡ name
  pub flagged : site.is_provisional ≡ (provisional || is_automatic name)
  pub present :
      select (λ p. p.is_current) st'.db.presences
      ≡ record { host = host; site_id = site.id; is_current = true } ∷ []
  pub here : All (IsHere host site.id) st'.db.presences
  pub linked : has_gsm gsm ≡ true → IsLinked gsm site.id st'.db
  pub forced : st'.forced ≡ st.forced

-- The state that a label leaves with this row of the table of sites.
abbrev labelled : Text → Option Text → Text → Bool → ℕ → Db → State → State
labelled host boot name prov i db st = record st {
  db = note_presence host i db;
  current = some (record { id = i; name = name; is_provisional = prov; boot_id = boot });
}
