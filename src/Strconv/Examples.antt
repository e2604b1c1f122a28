-- ===== src/Strconv/Examples.antt =====
-- A negative number, printed and read.
use swat4master.Prelude.{◌≡◌, some, arith}
use swat4master.Prelude.Int.{negsuc}
use swat4master.Strconv.{atoi, format_int}
use swat4master.Strconv.Decimal.{atoi-format_int}

atoi-format_int_example : atoi (format_int (negsuc 9)) ≡ some (negsuc 9)
atoi-format_int_example = atoi-format_int (negsuc 9) (omega arith)
