-- ===== src/IpScan/Owners.antt =====
-- Each address of a site has one owner.
use rpinode.IpScan.{
  Device, Found, is_ip, release, has_key, new_device, merged, upsert, update_device, update_devices,
  update_db_results,
}
use rpinode.Text.{Text, text_eq, lower}
use rpinode.Text.Contains.{text_eq_iff}
use rpinode.Prelude.{
  ℕ, ◌≡◌, refl, Bool, true, false, ◌&&◌, not, Option, none, some, List, [], ◌∷◌, map, ◌==◌, ==_refl,
  All, arith, inl, inr, Bool-cases,
}

abbrev pub share_ip : Option Text → Option Text → Bool
share_ip none b = false
share_ip (some a) none = false
share_ip (some a) (some b) = text_eq a b

-- Two rows of one table: of different devices, and with different addresses in one site.
pub record IsApart (d e : Device) : Type 0 where
  pub keys : (d.site_id == e.site_id && text_eq d.mac e.mac) ≡ false
  pub ips : (d.site_id == e.site_id && share_ip d.last_ip e.last_ip) ≡ false

abbrev pub AreApart : List Device → Type 0
AreApart [] = Unit
AreApart (d ∷ devices) = All (IsApart d) devices × AreApart devices

-- Another device of the site does not have the address.
record IsFree (site : ℕ) (mac ip : Text) (d : Device) : Type 0 where
  free : has_key site mac d ≡ false → (d.site_id == site && is_ip d.last_ip ip) ≡ false

release-IsFree :
    (site : ℕ) (mac ip : Text) (d : Device) → IsFree site mac ip (release site mac ip d)
unfolding release
release-IsFree site mac ip d =
    elim (Bool-cases (d.site_id == site && (not (text_eq d.mac mac) && is_ip d.last_ip ip))) [
      | inl other ↦ rw other record { free = λ h. ground arith }
      | inr fine ↦ rw fine record { free = λ h. ground arith }
    ]

-- An address that is released, or kept.
data IsReleased (d : Device) : Device → Type 0 where
  kept : IsReleased d d
  emptied : IsReleased d (record d { last_ip = none })

release-IsReleased : (site : ℕ) (mac ip : Text) (d : Device) → IsReleased d (release site mac ip d)
unfolding release
release-IsReleased site mac ip d =
    elim (Bool-cases (d.site_id == site && (not (text_eq d.mac mac) && is_ip d.last_ip ip))) [
      | inl other ↦ rw other emptied
      | inr fine ↦ rw fine kept
    ]

share_ip-none : (a : Option Text) → share_ip a none ≡ false
share_ip-none none = refl
share_ip-none (some a) = refl

-- Releasing addresses keeps rows apart.
IsReleased-IsApart :
    (d e : Device) {d' e' : Device}
    → IsReleased d d'
    → IsReleased e e'
    → IsApart d e
    → IsApart d' e'
IsReleased-IsApart d e kept kept h = h
IsReleased-IsApart d e kept emptied h = record {
  keys = h.keys;
  ips = ground (arith, share_ip-none d.last_ip);
}
IsReleased-IsApart d e emptied kept h = record { keys = h.keys; ips = ground arith }
IsReleased-IsApart d e emptied emptied h = record { keys = h.keys; ips = ground arith }

module _ (site : ℕ) (f : Found) where
  abbrev freed : Device → Device
  freed = release site (lower f.mac) f.ip

  All-IsApart-freed :
      (d : Device) (devices : List Device)
      → All (IsApart d) devices
      → All (IsApart (freed d)) (map freed devices)
  All-IsApart-freed d [] h = tt
  All-IsApart-freed d (e ∷ devices) (h, hs) = (
    IsReleased-IsApart d e (release-IsReleased site (lower f.mac) f.ip d)
        (release-IsReleased site (lower f.mac) f.ip e) h,
    All-IsApart-freed d devices hs,
  )

  AreApart-freed : (devices : List Device) → AreApart devices → AreApart (map freed devices)
  AreApart-freed [] h = tt
  AreApart-freed (d ∷ devices) (h, hs) = (All-IsApart-freed d devices h, AreApart-freed devices hs)

  abbrev Free : Device → Type 0
  Free d = IsFree site (lower f.mac) f.ip d

  All-Free-freed : (devices : List Device) → All Free (map freed devices)
  All-Free-freed [] = tt
  All-Free-freed (d ∷ devices) = (release-IsFree site (lower f.mac) f.ip d, All-Free-freed devices)

  share_ip-is_ip : (a : Option Text) (ip : Text) → share_ip a (some ip) ≡ is_ip a ip
  share_ip-is_ip none ip = refl
  share_ip-is_ip (some a) ip = refl

  share_ip_sym : (a b : Option Text) → share_ip a b ≡ share_ip b a
  share_ip_sym none none = refl
  share_ip_sym none (some b) = refl
  share_ip_sym (some a) none = refl
  share_ip_sym (some a) (some b) = ground (arith, text_eq_iff a b, text_eq_iff b a)

  IsApart-sym : (d e : Device) → IsApart d e → IsApart e d
  IsApart-sym d e h =
      let k = h.keys in
      let i = h.ips in
      record {
        keys = ground (arith, text_eq_iff d.mac e.mac, text_eq_iff e.mac d.mac);
        ips = ground (arith, share_ip_sym d.last_ip e.last_ip);
      }

  -- A row of the key of the device found, with its address.
  record IsOwner (e : Device) : Type 0 where
    keyed : has_key site (lower f.mac) e ≡ true
    owns : e.last_ip ≡ some f.ip

  new-IsOwner : IsOwner (new_device site f)
  new-IsOwner = record {
    keyed = rw (==_refl site, (text_eq_iff (lower f.mac) (lower f.mac)).1 refl);
    owns = refl;
  }

  merged-IsOwner : (d : Device) → has_key site (lower f.mac) d ≡ true → IsOwner (merged f d)
  merged-IsOwner d h = record { keyed = h; owns = refl }

  other-IsApart :
      (d e : Device)
      → has_key site (lower f.mac) d ≡ false
      → Free d
      → IsOwner e
      → IsApart d e × IsApart e d
  other-IsApart d e other free own =
      let at : e.site_id ≡ site = (let k = own.keyed in ground arith) in
      let mac : e.mac ≡ lower f.mac =
        (let k = own.keyed in (text_eq_iff e.mac (lower f.mac)).0 (ground arith)) in
      let apart : IsApart d e = record {
        keys = rw (at, mac) other;
        ips = rw (at, own.owns, share_ip-is_ip) (free.free other);
      } in
      (apart, IsApart-sym d e apart)

  All-IsApart-upsert :
      (d : Device) (devices : List Device)
      → has_key site (lower f.mac) d ≡ false
      → Free d
      → All (IsApart d) devices
      → All (IsApart d) (upsert site f devices)
  unfolding upsert
  All-IsApart-upsert d [] other free h = ((other-IsApart d _ other free new-IsOwner).0, tt)
  All-IsApart-upsert d (e ∷ devices) other free (h, hs) =
      elim (Bool-cases (has_key site (lower f.mac) e)) [
        | inl ours ↦ rw ours ((other-IsApart d _ other free (merged-IsOwner e ours)).0, hs)
        | inr theirs ↦ rw theirs (h, All-IsApart-upsert d devices other free hs)
      ]

  -- Behind the row of the device found, every row is apart from it.
  All-IsApart-merged :
      (d : Device) (devices : List Device)
      → has_key site (lower f.mac) d ≡ true
      → All (IsApart d) devices
      → All Free devices
      → All (IsApart (merged f d)) devices
  All-IsApart-merged d [] ours h free = tt
  All-IsApart-merged d (e ∷ devices) ours (h, hs) (g, gs) =
      let k = h.keys in
      let theirs : has_key site (lower f.mac) e ≡ false = ground (
        arith,
        text_eq_iff d.mac (lower f.mac),
        text_eq_iff e.mac (lower f.mac),
        text_eq_iff d.mac e.mac,
      ) in
      (
        (other-IsApart e _ theirs g (merged-IsOwner d ours)).1,
        All-IsApart-merged d devices ours hs gs,
      )

  AreApart-upsert :
      (devices : List Device)
      → All Free devices
      → AreApart devices
      → AreApart (upsert site f devices)
  unfolding upsert
  AreApart-upsert [] free h = (tt, tt)
  AreApart-upsert (d ∷ devices) (g, gs) (h, hs) = elim (Bool-cases (has_key site (lower f.mac) d)) [
    | inl ours ↦ rw ours (All-IsApart-merged d devices ours h gs, hs)
    | inr theirs ↦
        rw theirs (All-IsApart-upsert d devices theirs g h, AreApart-upsert devices gs hs)
  ]

  AreApart-update_device :
      (devices : List Device) → AreApart devices → AreApart (update_device site f devices)
  unfolding update_device
  AreApart-update_device devices h =
      AreApart-upsert (map freed devices) (All-Free-freed devices) (AreApart-freed devices h)

AreApart-update_devices :
    (site : ℕ) (found : List Found) (devices : List Device)
    → AreApart devices
    → AreApart (update_devices site found devices)
unfolding update_devices
AreApart-update_devices site [] devices h = h
AreApart-update_devices site (f ∷ found) devices h =
    AreApart-update_devices site found (update_device site f devices)
      (AreApart-update_device site f devices h)

-- Storing what a scan found keeps the rows of the table apart: where no device stood twice in a site
-- and no address belonged to two devices of one site, this still holds afterwards, whatever addresses
-- are found and in whatever order.
pub update_db_results-AreApart :
    (site : Option ℕ) (found : List Found) (devices : List Device)
    → AreApart devices
    → AreApart (update_db_results site found devices)
unfolding update_db_results
update_db_results-AreApart none found devices h = h
update_db_results-AreApart (some site) found devices h = elim (Bool-cases (site == 0)) [
  | inl nowhere ↦ rw nowhere h
  | inr here ↦ rw here (AreApart-update_devices site found devices h)
]
