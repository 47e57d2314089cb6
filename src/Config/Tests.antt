-- ===== src/Config/Tests.antt =====
-- A configuration that is written over another, on a disk that is full and on one that is not.
use interview_labs.Prelude.{codes, Bool, true, false, some, none, [], ◌≡◌, refl, All}
use interview_labs.Config.{Config, Yaml, Disk, Step, zero_config, act, fill, write, path}
use interview_labs.Config.Atomic.{IsWhole, IsWritten, write-IsWhole}

abbrev picked : Config
picked = record zero_config { profile = codes "devops-ai" }

-- A format that keeps the profile alone.
abbrev yaml : Yaml
yaml = record {
  marshal = λ c. c.profile;
  unmarshal = λ t. some (record zero_config { profile = t });
}

abbrev full : Step → Bool
full Step.write_temp = true
full _ = false

abbrev disk : Disk
disk = record { config = some (record { data_ = codes "backend"; mode = 384 }); temp = none }

kept : (write yaml full (codes "dev") true picked disk).final ≡ disk
unfolding write fill act
kept = refl

write-IsWhole_example :
    All
      (IsWhole yaml full (codes "dev") true picked disk)
      (write yaml full (codes "dev") true picked disk).seen
    × IsWritten yaml full
        (codes "dev")
        true
        picked
        disk
        (write yaml full (codes "dev") true picked disk).outcome
        (write yaml full (codes "dev") true picked disk).final
write-IsWhole_example = write-IsWhole yaml full (codes "dev") true picked disk refl

default_path : path [] (some (codes "/root")) ≡ some (codes "/root/.config/interview/config.yaml")
unfolding path
default_path = refl
