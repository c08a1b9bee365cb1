-- ===== src/Fstab/Examples.antt =====
-- src/fstab.rs: a table with a comment, the root, a virtual file system and a disk.
use flint_init.Prelude.{
  Text, text, text_beq, true, some, [], ◌∷◌, ◌++◌, ◌≡◌, refl, contains, text_eq,
}
use flint_init.Prelude.Strings.{split, join}
use flint_init.Fstab.{
  mount_all, nosuid, parse_flags, options_of, parse_fstab, parse_line, should_mount, is_entry,
  mount_of, strip_cr, no_flags, has_flag, is_root, is_noauto, is_virtual,
}
use flint_init.Fstab.Flags.{unknown_words, parse_flags_lem}
use flint_init.Fstab.Mounts.{Selects, mount_all_lem}

abbrev newline : Text
newline = 10 ∷ []

abbrev table : Text
table =
    text "# a comment"
    ++ (newline
        ++ (text "/dev/sda1 / ext4 rw 0 1"
            ++ (newline
                ++ (text "proc /proc proc defaults 0 0"
                    ++ (newline
                        ++ (text "UUID=12 /home ext4 defaults,nosuid,discard 0 2" ++ newline))))))

program : Unit {0}
unfolding mount_all parse_fstab is_root is_noauto is_virtual is_entry parse_line should_mount
    mount_of split join contains text_beq strip_cr
program = tt

mounts_home :
    mount_all (some table)
    ≡ record {
      device = text "/dev/disk/by-uuid/12";
      file = text "/home";
      vfstype = text "ext4";
      flags = record no_flags { nosuid_set = true };
      fs_data = some (text "discard");
    }
      ∷ []
unfolding program
mounts_home = refl

mount_all_example : Selects (parse_fstab table) (mount_all (some table))
mount_all_example = mount_all_lem table

parse_flags_example :
    (has_flag (parse_flags (text "ro,ro, nosuid,discard")).0 nosuid
      ≡ contains (options_of (text "ro,ro, nosuid,discard")) (text "nosuid"))
    × ((parse_flags (text "ro,ro, nosuid,discard")).1
        ≡ join (text ",") (unknown_words (options_of (text "ro,ro, nosuid,discard"))))
parse_flags_example = parse_flags_lem (text "ro,ro, nosuid,discard") nosuid
