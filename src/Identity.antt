-- ===== src/Identity.antt =====
-- Who a calendar address names: src/svc/internal/schedule/identity.go, with AddrOf of
-- src/svc/internal/icsutil/event.go.
-- The domain that the process has set is the argument `domain`; "" is that none is set.
pub mod Distinct
use dcalcon.Base.{
  ℕ, Bool, true, false, not, ◌&&◌, ◌||◌, Option, none, some, List, [], ◌∷◌, ◌++◌, Text, codes, same,
  find_first, any, trim_space, trim_prefix, to_lower, equal_fold, nocase, ◌==◌, if◌then◌else◌,
}
use dcalcon.Storage.{User, Error, not_found, Result, ok, err, Db}
use dcalcon.Storage.Users.{user_by_username, user_by_email}

abbrev pub default_local_domain : Text
default_local_domain = codes "dcalcon.private"

-- SetLocalDomain, the text that it stores.
unfoldable pub set_local_domain : (ℕ → ℕ) → Text → Text
set_local_domain table d =
    let t = to_lower table (trim_space d) in if same t [] then default_local_domain else t

-- LocalDomain
unfoldable pub local_domain : Text → Text
local_domain domain = if same domain [] then default_local_domain else domain

-- LocalMailbox
unfoldable pub local_mailbox : (ℕ → ℕ) → Text → Text → Text
unfolding local_domain
local_mailbox table domain username =
    let u = trim_space username in
    if same u [] then [] else to_lower table u ++ b'@' ∷ local_domain domain

-- AddrOf
unfoldable pub addr_of : Text → Text
addr_of v = trim_prefix (trim_prefix (trim_space v) (codes "mailto:")) (codes "MAILTO:")

-- The text before and after the last of a character.
unfoldable pub split_last : ℕ → Text → Option (Text × Text)
split_last sep [] = none
split_last sep (c ∷ s) = elim (split_last sep s) [
  | some (l, h) ↦ some (c ∷ l, h)
  | none ↦ if c == sep then some ([], s) else none
]

abbrev pub both_parts : Option (Text × Text) → Option (Text × Text)
both_parts none = none
both_parts (some (l, h)) = if same l [] || same h [] then none else some (l, h)

-- splitMailbox
unfoldable pub split_mailbox : Text → Option (Text × Text)
unfolding split_last
split_mailbox addr = both_parts (split_last b'@' (trim_space addr))

-- isLocalHost
unfoldable pub is_local_host : (ℕ → ℕ) → Text → Text → Bool
unfolding local_domain
is_local_host table domain host =
    let h = to_lower table (trim_space host) in
    if same h []
    then false
    else same h (local_domain domain)
      || (same h default_local_domain || same h (codes "dcalcon.invalid"))

-- IsLocalMailbox
unfoldable pub is_local_mailbox : (ℕ → ℕ) → Text → Text → Bool
unfolding split_mailbox is_local_host
is_local_mailbox table domain ident = elim (split_mailbox (addr_of ident)) [
  | none ↦ false
  | some m ↦ is_local_host table domain m.1
]

-- The closure `add` of Identities.
unfoldable pub add_identity : (ℕ → ℕ) → Text → List Text → List Text
add_identity folding text out =
    let s = trim_space text in
    if same s [] then out else if any (λ e. equal_fold folding e s) out then out else out ++ s ∷ []

-- Identities of a user that is not nil.
unfoldable pub identities : (ℕ → ℕ) → (ℕ → ℕ) → Text → User → List Text
unfolding add_identity local_mailbox
identities folding table domain u =
    add_identity folding (local_mailbox table domain u.username)
      (add_identity folding u.email (add_identity folding u.username []))

-- SameUser; the user nil is `none`.
unfoldable pub same_user : (ℕ → ℕ) → (ℕ → ℕ) → Text → Option User → Text → Bool
same_user folding table domain none ident = false
same_user folding table domain (some u) ident =
    let a = to_lower table (addr_of ident) in
    if same a []
    then false
    else any (λ e. equal_fold folding e a) (identities folding table domain u)

abbrev pub or_by_email : Db → Text → Result User → Result User
or_by_email db ident (ok u) = ok u
or_by_email db ident (err e) = user_by_email db ident

abbrev pub local_part : (ℕ → ℕ) → Text → Option (Text × Text) → Option Text
local_part table domain none = none
local_part table domain (some (l, h)) = if is_local_host table domain h then some l else none

-- FindUser
unfoldable pub find_user : (ℕ → ℕ) → Text → Db → Text → Result User
unfolding split_mailbox is_local_host user_by_username
find_user table domain db ident =
    let a = addr_of ident in
    if same a [] then err not_found else elim (local_part table domain (split_mailbox a)) [
      | some l ↦ user_by_username db l
      | none ↦ or_by_email db a (user_by_username db a)
    ]
