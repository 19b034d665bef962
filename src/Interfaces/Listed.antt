-- ===== src/Interfaces/Listed.antt =====
-- Which interfaces unpv13e/lib/get_ifi_info.c lists.
use linux_practice.Base.{
  ℕ, ◌≡◌, refl, sym, ap, ◌∙◌, arith, Bool, true, false, ◌&&◌, List, [], ◌∷◌, map, if◌then◌else◌,
}
use linux_practice.Gai.Types.{Family, unspec, inet, inet6, local_family, other_family, same_family}
use linux_practice.Interfaces.{
  IfReq, Queries, IfiInfo, before_colon, same_name, new_info, if_up, named, of_family,
}

-- The second loop of get_ifi_info, for entries that stand in a list.
unfoldable pub list_loop : Queries → Family → Bool → List ℕ → List IfReq → List IfiInfo
list_loop q family doaliases lastname [] = []
list_loop q family doaliases lastname (e ∷ es) =
    of_family q doaliases (same_family e.ifr_family family) lastname e
      (λ last. list_loop q family doaliases last es)

-- The names, up to a colon, of the entries of a family whose interface is up.
abbrev pub names_up : Queries → Family → List IfReq → List (List ℕ)
names_up q f [] = []
names_up q f (e ∷ es) =
    if same_family e.ifr_family f && (q.flags (before_colon e.ifr_name)).up
    then before_colon e.ifr_name ∷ names_up q f es
    else names_up q f es

abbrev pub without_aliases : List IfiInfo → List IfiInfo
without_aliases [] = []
without_aliases (i ∷ is) = if i.alias then without_aliases is else i ∷ without_aliases is

-- The fields that the addresses leave.
new_info-fields :
    (q : Queries) (alias : Bool) (name : List ℕ) (f : Family) (e : IfReq)
    → e.ifr_family ≡ f
    → ((new_info q alias name e).ifi_name ≡ name) × ((new_info q alias name e).alias ≡ alias)
unfolding new_info
new_info-fields q alias name inet e h = rw h (refl, refl)
new_info-fields q alias name inet6 e h = rw h (refl, refl)
new_info-fields q alias name unspec e h = rw h (refl, refl)
new_info-fields q alias name local_family e h = rw h (refl, refl)
new_info-fields q alias name (other_family n) e h = rw h (refl, refl)

same_name_sound : (xs ys : List ℕ) → same_name xs ys ≡ true → xs ≡ ys
same_name_sound [] [] h = refl
same_name_sound [] (y ∷ ys) h = cc
same_name_sound (x ∷ xs) [] h = cc
same_name_sound (x ∷ xs) (y ∷ ys) h =
    let e = same_name_sound xs ys (ground arith) in let k : x ≡ y = (ground arith) in cc

if_up-names :
    (u : Bool) (i : IfiInfo) (name : List ℕ) (rest : List IfiInfo) (names : List (List ℕ))
    → i.ifi_name ≡ name
    → map (λ (j : IfiInfo). j.ifi_name) rest ≡ names
    → map (λ (j : IfiInfo). j.ifi_name) (if_up u i rest) ≡ (if u then name ∷ names else names)
if_up-names true i name rest names e h = rw e (ap (λ l. name ∷ l) h)
if_up-names false i name rest names e h = h

of_family-names :
    (q : Queries) (f : Family) (b : Bool) (last : List ℕ) (e : IfReq) (es : List IfReq)
    (rest : List ℕ → List IfiInfo)
    → ((l : List ℕ) → map (λ (j : IfiInfo). j.ifi_name) (rest l) ≡ names_up q f es)
    → map (λ (j : IfiInfo). j.ifi_name) (of_family q true b last e rest) ≡ (
        if b && (q.flags (before_colon e.ifr_name)).up
        then before_colon e.ifr_name ∷ names_up q f es
        else names_up q f es)
of_family-names q f false last e es rest h = h last
of_family-names q f true last e es rest h = by_alias (same_name last name)
  where
    name : List ℕ
    name = before_colon e.ifr_name

    listed :
        (a : Bool)
        → map
            (λ (j : IfiInfo). j.ifi_name)
            (if_up (q.flags name).up (new_info q a name e) (rest name))
          ≡ (if (q.flags name).up then name ∷ names_up q f es else names_up q f es)
    listed a =
        if_up-names (q.flags name).up (new_info q a name e) name (rest name) (names_up q f es)
          (new_info-fields q a name e.ifr_family e refl).0 (h name)

    by_alias :
        (a : Bool)
        → map (λ (j : IfiInfo). j.ifi_name) (named q true a last name e rest)
          ≡ (if (q.flags name).up then name ∷ names_up q f es else names_up q f es)
    by_alias true = listed true
    by_alias false = listed false

pub list_loop-names :
    (q : Queries) (f : Family) (last : List ℕ) (es : List IfReq)
    → map (λ (j : IfiInfo). j.ifi_name) (list_loop q f true last es) ≡ names_up q f es
unfolding list_loop
list_loop-names q f last [] = refl
list_loop-names q f last (e ∷ es) =
    of_family-names q f (same_family e.ifr_family f) last e es (λ l. list_loop q f true l es)
      (λ l. list_loop-names q f l es)

if_up-aliases :
    (u : Bool) (i : IfiInfo) (a : Bool) (rest : List IfiInfo)
    → i.alias ≡ a
    → without_aliases (if_up u i rest)
      ≡ (if a then without_aliases rest else if_up u i (without_aliases rest))
if_up-aliases true i true rest e = rw e refl
if_up-aliases true i false rest e = rw e refl
if_up-aliases false i true rest e = refl
if_up-aliases false i false rest e = refl

of_family-aliases :
    (q : Queries) (b : Bool) (last : List ℕ) (e : IfReq) (rest rest' : List ℕ → List IfiInfo)
    → ((l : List ℕ) → without_aliases (rest l) ≡ rest' l)
    → without_aliases (of_family q true b last e rest) ≡ of_family q false b last e rest'
of_family-aliases q false last e rest rest' h = h last
of_family-aliases q true last e rest rest' h = by_alias (same_name last name) refl
  where
    name : List ℕ
    name = before_colon e.ifr_name

    by_alias :
        (a : Bool)
        → same_name last name ≡ a
        → without_aliases (named q true a last name e rest) ≡ named q false a last name e rest'
    by_alias true k =
        if_up-aliases (q.flags name).up (new_info q true name e) true (rest name)
          (new_info-fields q true name e.ifr_family e refl).1
        ∙ h name
        ∙ ap rest' (sym (same_name_sound last name k))
    by_alias false k =
        if_up-aliases (q.flags name).up (new_info q false name e) false (rest name)
          (new_info-fields q false name e.ifr_family e refl).1
        ∙ ap (λ l. if_up (q.flags name).up (new_info q false name e) l) (h name)

pub list_loop-aliases :
    (q : Queries) (f : Family) (last : List ℕ) (es : List IfReq)
    → without_aliases (list_loop q f true last es) ≡ list_loop q f false last es
unfolding list_loop
list_loop-aliases q f last [] = refl
list_loop-aliases q f last (e ∷ es) =
    of_family-aliases q (same_family e.ifr_family f) last e (λ l. list_loop q f true l es)
      (λ l. list_loop q f false l es) (λ l. list_loop-aliases q f l es)
