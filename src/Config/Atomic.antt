-- ===== src/Config/Atomic.antt =====
-- The configuration file is replaced as a whole.
use interview_labs.Prelude.{
  Text, Bool, true, some, [], ◌≡◌, ◌⊎◌, inl, inr, refl, arith, Bool-cases, All, All-append,
}
use interview_labs.Prelude.Outcome.{Outcome, ok, err}
use interview_labs.Config.{
  Config, Yaml, Disk, Step, ConfigError, Written, load, finish, same, with_temp, moved, act,
  removed, cleaned, fill, write,
}

module _ (yaml : Yaml) (fails : Step → Bool) (partial : Text) (removes : Bool) (c : Config)
    (d : Disk) where
  -- The configuration file is as it was, or the new one.
  abbrev pub IsWhole : Disk → Type 0
  IsWhole s =
      (s.config ≡ d.config) ⊎ (s.config ≡ some (record { data_ = yaml.marshal c; mode = 384 }))

  -- A write that returns left a file from which Load reads the configuration; one that fails left
  -- the file as it was.
  abbrev pub IsWritten : Outcome ConfigError (Unit {0}) → Disk → Type 0
  IsWritten (ok u) s = load yaml true s ≡ ok c
  IsWritten (err e) s = s.config ≡ d.config

  record IsGood (w : Written) : Type 0 where
    whole : All IsWhole w.seen
    ends : IsWhole w.final
    written : IsWritten w.outcome w.final

  act-IsGood :
      (st : Step) (bad good : Disk → Disk) (next : Disk → Written) (s : Disk)
      → s.config ≡ d.config
      → (bad s).config ≡ d.config
      → IsGood (next (good s))
      → IsGood (act yaml fails partial removes st bad good next s)
  unfolding act
  act-IsGood st bad good next s h b g = elim (Bool-cases (fails st)) [
    | inl e ↦ rw e (record { whole = (inl h, (inl b, tt)); ends = inl b; written = b })
    | inr e ↦ rw e (record { whole = (inl h, g.whole); ends = g.ends; written = g.written })
  ]

  removed-IsGood :
      (o : Outcome ConfigError (Unit {0})) (s : Disk)
      → IsWhole s
      → IsWritten o s
      → IsWhole (removed yaml fails partial removes s)
        × IsWritten o (removed yaml fails partial removes s)
  unfolding load
  removed-IsGood (ok u) s h k = ground arith
  removed-IsGood (err e) s h k = ground arith

  cleaned-IsGood : (w : Written) → IsGood w → IsGood (cleaned yaml fails partial removes w)
  cleaned-IsGood w g =
      let (e, k) = removed-IsGood w.outcome w.final g.ends g.written in
      record { whole = All-append IsWhole w.seen _ g.whole (e, tt); ends = e; written = k }

  finish-IsGood :
      (s : Disk)
      → yaml.unmarshal (yaml.marshal c) ≡ some c
      → s.config ≡ some (record { data_ = yaml.marshal c; mode = 384 })
      → IsGood (finish s)
  unfolding load
  finish-IsGood s y h = record { whole = (inr h, tt); ends = inr h; written = rw (h, y) refl }

  write-IsGood :
      yaml.unmarshal (yaml.marshal c) ≡ some c → IsGood (write yaml fails partial removes c d)
  unfolding write fill
  write-IsGood y = act-IsGood _ same same _ d refl refl (
      act-IsGood _ same same _ d refl refl (
        act-IsGood _ same same _ d refl refl (
          act-IsGood _ same (with_temp []) _ d refl refl (
            cleaned-IsGood _ (
              act-IsGood _ same same _ _ refl refl (
                act-IsGood _ (with_temp partial) (with_temp (yaml.marshal c)) _ _ refl refl (
                  act-IsGood _ same same _ _ refl refl
                    (act-IsGood _ same moved _ _ refl refl (finish-IsGood _ y refl)))))))))

  -- Where the yaml package reads back what it made of a configuration, writing that configuration
  -- leaves the file, at each moment until it ends, as it was or with the whole new content and the
  -- mode 0600. If it returns, Load reads the configuration; if it fails, the file is as it was.
  pub write-IsWhole :
      yaml.unmarshal (yaml.marshal c) ≡ some c
      → All IsWhole (write yaml fails partial removes c d).seen
        × IsWritten
            (write yaml fails partial removes c d).outcome
            (write yaml fails partial removes c d).final
  write-IsWhole y = let g = write-IsGood y in (g.whole, g.written)
