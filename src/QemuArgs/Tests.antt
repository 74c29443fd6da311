-- ===== src/QemuArgs/Tests.antt =====
-- A command line with two drives and a network card, and options that give a card of their own.
use nova_ve.Prelude.{◌≡◌, refl, Option, none, some, List, [], ◌∷◌, Text, codes, text_eq, split_on}
use nova_ve.QemuArgs.{parse_qemu_tokens, scan_tokens, merge_qemu_args, merge_groups}
use nova_ve.QemuArgs.Merged.{instances_in, instances-merge_qemu_args}

abbrev base : List Text
base =
    codes "qemu"
    ∷ codes "-m"
    ∷ codes "64"
    ∷ codes "-nic"
    ∷ codes "tap"
    ∷ codes "-hda"
    ∷ codes "a"
    ∷ []

abbrev extra : List Text
extra = codes "-nic" ∷ codes "user" ∷ codes "-S" ∷ []

-- What `shlex.split` does with a text that has neither quotes nor two spaces in a row
abbrev split : Text → Option (List Text)
split s = some (split_on b' ' s)

instances-merge_qemu_args_example :
    instances_in (codes "-nic") (merge_qemu_args split base (codes "-nic user -S"))
    ≡ some ((codes "-nic", codes "user" ∷ []) ∷ [])
unfolding text_eq split_on parse_qemu_tokens scan_tokens
instances-merge_qemu_args_example =
    instances-merge_qemu_args split base b'-' (codes "nic user -S") extra (codes "-nic") refl refl

merge_qemu_args_test :
    merge_qemu_args split base (codes "-nic user -S")
    ≡ some (
        codes "qemu"
        ∷ codes "-m"
        ∷ codes "64"
        ∷ codes "-hda"
        ∷ codes "a"
        ∷ codes "-nic"
        ∷ codes "user"
        ∷ codes "-S"
        ∷ [])
unfolding text_eq split_on parse_qemu_tokens scan_tokens merge_qemu_args merge_groups
merge_qemu_args_test = refl

-- Where the text cannot be split, there is no command line.
merge_qemu_args_unbalanced : merge_qemu_args (λ s. none) base (codes "'") ≡ none
unfolding merge_qemu_args
merge_qemu_args_unbalanced = refl
