-- ===== src/Shell/Policy/Patterns.antt =====
-- src/shell/policy.ts: the commands that the default policy refuses, pattern by pattern.
use pve_agent.Base.{
  in_range, any, find, Text, codes, is_space, is_digit, is_alpha, String, ◌≡◌, refl, not, ◌||◌,
  Option, none, some, List, [], ◌∷◌,
}
use mathlib.Core.Option
use pve_agent.Shell.Policy.Regex.{
  Regex, chars, star, at_start, word_boundary, before_space_or_end, ◌&◌, ◌or◌, lit, one_of, word,
  anything, space, spaces, optional, regex_test,
}

pub record DestructivePattern : Type 0 where
  pub pattern : Regex
  pub reason : Text

abbrev row : Regex → String → DestructivePattern
row r s = record { pattern = r; reason = codes s }

abbrev letter : Regex
letter = chars is_alpha

abbrev not_space : Regex
not_space = chars (λ c. not (is_space c))

abbrev lower_alnum : Regex
lower_alnum = chars (λ c. in_range b'a' b'z' c || is_digit c)

abbrev words : List String → Regex
words ws = word_boundary & (one_of ws & word_boundary)

abbrev two_words : String → List String → Regex
two_words program verbs = word_boundary & (lit program & (spaces & (one_of verbs & word_boundary)))

abbrev line_start : Regex
line_start = at_start or space

abbrev gap_arguments : Regex
gap_arguments = space & optional (anything & space)

abbrev power_target : Regex
power_target =
    word_boundary
    & (one_of ("reboot" ∷ "poweroff" ∷ "halt" ∷ "kexec" ∷ "emergency" ∷ "rescue" ∷ [])
        & (lit ".target" & word_boundary))

-- `^systemctl\s+(?:-\S+\s+)*`.
abbrev systemctl : Regex
systemctl =
    at_start
    & (lit "systemctl" & (spaces & star (lit "-" & (not_space & (star not_space & spaces)))))

abbrev pub power_reason : String
power_reason = "node power state change"

abbrev pub destructive_patterns : List DestructivePattern
destructive_patterns =
    row
      (line_start
        & (lit "rm"
            & (gap_arguments
                & ((lit "-" & (star letter & one_of ("r" ∷ "R" ∷ "f" ∷ []))
                      or one_of ("--recursive" ∷ "--force" ∷ "--no-preserve-root" ∷ []))
                    & before_space_or_end))))
      "rm with -r or -f"
    ∷ row (word "shred") "shred overwrites file contents"
    ∷ row (word "find" & (anything & (space & (lit "-delete" & word_boundary)))) "find -delete"
    ∷ row
        (two_words "zpool"
          ("destroy" ∷ "labelclear" ∷ "split" ∷ "remove" ∷ "detach" ∷ "offline" ∷ "replace" ∷ []))
        "zpool state change"
    ∷ row (two_words "zfs" ("destroy" ∷ "rollback" ∷ "change-key" ∷ []))
        "zfs destroy, rollback or key change"
    ∷ row
        ((word_boundary
            & (lit "mkfs"
                & (optional (lit "." & (lower_alnum & star lower_alnum)) & word_boundary)))
          or word "mke2fs")
        "filesystem creation"
    ∷ row
        (word "wipefs"
          or word "blkdiscard"
          or word "sgdisk"
          or word "fdisk"
          or word "parted"
          or word "sfdisk")
        "partition table change"
    ∷ row (word "dd" & (anything & (word_boundary & lit "of="))) "dd writing to a device or file"
    ∷ row (words ("lvremove" ∷ "vgremove" ∷ "pvremove" ∷ "lvreduce" ∷ "vgreduce" ∷ []))
        "LVM removal"
    ∷ row (two_words "cryptsetup" ("luksFormat" ∷ "erase" ∷ "luksKillSlot" ∷ "luksRemoveKey" ∷ []))
        "LUKS key or header change"
    ∷ row
        (word "mdadm"
          & (anything & one_of ("--zero-superblock" ∷ "--fail" ∷ "--remove" ∷ "--stop" ∷ [])))
        "mdadm array change"
    ∷ row
        (word_boundary & (one_of ("qm" ∷ "pct" ∷ []) & (spaces & (lit "destroy" & word_boundary))))
        "guest destruction"
    ∷ row (two_words "pvecm" ("delnode" ∷ [])) "cluster node removal"
    ∷ row
        (word_boundary
          & (lit "apt"
              & (optional (lit "-get")
                  & (word_boundary & (anything & words ("remove" ∷ "purge" ∷ "autoremove" ∷ []))))))
        "package removal"
    ∷ row (word "dpkg" & (anything & (one_of ("--purge" ∷ "-P" ∷ []) & word_boundary)))
        "package purge"
    ∷ row
        (at_start
          & (one_of ("reboot" ∷ "poweroff" ∷ "halt" ∷ "shutdown" ∷ []) & before_space_or_end))
        power_reason
    ∷ row
        (at_start
          & (one_of ("init" ∷ "telinit" ∷ [])
              & (gap_arguments & (one_of ("0" ∷ "6" ∷ []) & before_space_or_end))))
        power_reason
    ∷ row
        (systemctl
          & (one_of ("reboot" ∷ "poweroff" ∷ "halt" ∷ "kexec" ∷ "emergency" ∷ "rescue" ∷ [])
              & before_space_or_end))
        power_reason
    ∷ row (systemctl & (one_of ("start" ∷ "isolate" ∷ []) & (space & (anything & power_target))))
        power_reason
    ∷ row (lit "/proc/sysrq-trigger" & before_space_or_end) "a write to /proc/sysrq-trigger"
    ∷ row
        (lit ">"
          & (star space
              & (lit "/dev/"
                  & one_of
                      ("sd" ∷ "nvme" ∷ "vd" ∷ "zd" ∷ "md" ∷ "mapper" ∷ "zvol" ∷ "disk/by-" ∷ []))))
        "redirect onto a block device"
    ∷ row (word "mkswap" or word "swapoff") "swap change"
    ∷ row (two_words "pvesm" ("free" ∷ [])) "storage volume removal"
    ∷ []

unfoldable pub destructive_hit : List Text → Option DestructivePattern
unfolding regex_test is_space is_alpha is_digit
destructive_hit lines =
    find (λ entry. any (λ line. regex_test entry.pattern line) lines) destructive_patterns

pattern_tests :
    (Option.map (λ p. p.reason) (destructive_hit (codes "rm -i -rf /" ∷ []))
      ≡ some (codes "rm with -r or -f"))
    × (destructive_hit (codes "rm -i x" ∷ codes "qm reboot 1" ∷ []) ≡ none)
    × (Option.map
          (λ p. p.reason)
          (destructive_hit (codes "systemctl --now isolate rescue.target" ∷ []))
        ≡ some (codes "node power state change"))
unfolding destructive_hit
pattern_tests = (refl, refl, refl)
