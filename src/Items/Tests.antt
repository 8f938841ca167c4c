-- ===== src/Items/Tests.antt =====
-- Lines of a vocabulary file.
use leitner.Items.Replace.{copied}
use leitner.Items.Read.{item}
use leitner.Items.Replace.{behind}
use leitner.Items.Laws.{replace_str2-Replaces}
use leitner.Items.Lines.{read_line-Hides, read_line_stuck}
use leitner.Items.Replace.{strstr}
use leitner.Common.{length}
use leitner.Items.Lines.{Hides, commented, cut}
use leitner.Items.Laws.{Replaces}
use leitner.Items.Read.{no_return, underline}
use leitner.Items.Replace.{copy_loop}
use leitner.Items.Read.{read_rest, split_comment}
use leitner.Items.Replace.{count_loop}
use leitner.Common.{codes}
use leitner.Items.Read.{read_line, strchr}
use leitner.Items.Replace.{Replaced, replace_str2}
use leitner.Common.{ℕ, refl, arith, ◌≡◌, some}

replace_str2-Replaces_example :
    (r : Replaced) × (n : ℕ) × (replace_str2 9 (codes "an ant") (codes "an") (codes "the") ≡ some r)
    × Replaces (codes "an") (codes "the") (codes "an ant") r.text n
    × (length r.text ≡ r.retlen)
replace_str2-Replaces_example =
    replace_str2-Replaces 9 (codes "an ant") (codes "an") (codes "the") (omega arith) (omega arith)
      (omega arith) (omega arith) (omega arith) (omega arith)

replaced :
    replace_str2 9 (codes "an ant") (codes "an") (codes "the")
    ≡ some (record { text = codes "the thet"; retlen = 8 })
unfolding replace_str2 count_loop copy_loop copied strstr behind
replaced = refl

read_line_stuck_example : read_line 1000 (codes "=sun") ≡ no_return
read_line_stuck_example = read_line_stuck 1000 (codes "sun") (omega arith)

read_line-Hides_example :
    Hides
      (codes "sun")
      (codes "the sun ")
      (some (codes "n"))
      (read_line 9 (codes "sun=the sun #n&2"))
read_line-Hides_example =
    read_line-Hides 9 (codes "sun") (codes "the sun #n&2") (codes "the sun ") (some (codes "n"))
      refl (commented (codes "the sun ") (codes "n&2") refl (cut (codes "n") (codes "2") refl))
      (omega arith) (omega arith) (omega arith) (omega arith)

hidden_word :
    read_line 9 (codes "sun=the sun #n&2")
    ≡ item (record { vbuf = codes "sun"; sbuf = codes "the ___ "; comm = some (codes "n") })
unfolding read_line read_rest strchr split_comment underline replace_str2 copy_loop copied strstr
    behind
hidden_word = refl
