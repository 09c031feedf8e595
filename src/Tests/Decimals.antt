-- ===== src/Tests/Decimals.antt =====
-- The 128-bit words of src/frontend/numeric.c at concrete values.
use cc.Base.{◌*◌, ◌≡◌, arith}
use cc.Numeric.Wide.{Wide, wide_multiply, wide_divide}
use cc.Numeric.Product.{wide_value, IsWide, wide_multiply-value}
use cc.Numeric.Quotient.{Divides, wide_divide-Divides}

wide_multiply-value_example :
    (wide_value (wide_multiply 18446744073709551615 10000000000000000000)
      ≡ 18446744073709551615 * 10000000000000000000)
    × IsWide (wide_multiply 18446744073709551615 10000000000000000000)
wide_multiply-value_example =
    wide_multiply-value 18446744073709551615 10000000000000000000 (omega arith) (omega arith)

abbrev wide_number : Wide
wide_number = record { high = 5; low = 7 }

wide_number-IsWide : IsWide wide_number
wide_number-IsWide = record { high_fits = omega arith; low_fits = omega arith }

wide_divide-Divides_example :
    Divides
      (wide_value wide_number)
      7450580596923828125
      (wide_divide wide_number 7450580596923828125)
wide_divide-Divides_example =
    wide_divide-Divides wide_number wide_number-IsWide 7450580596923828125 (omega arith)
      (omega arith)
