-- ===== src/Domain/Signature/Samples.antt =====
-- Captured outputs, and the signatures that the parsers read from them.
use self_healing_system_tfg.Base.{◌≡◌, refl, ◌&&◌, ◌||◌, [], none, some, leb}
use self_healing_system_tfg.Python.Text.{text}
use self_healing_system_tfg.Python.Regex.{Unicode}
use self_healing_system_tfg.Domain.Signature.{crash, test}
use self_healing_system_tfg.Domain.Signature.Parse.{parse_error}

-- The ASCII part of the Unicode database.
abbrev pub ascii : Unicode
ascii = record {
  alnum =
      λ c. (leb b'0' c && leb c b'9') || (leb b'a' c && leb c b'z') || (leb b'A' c && leb c b'Z');
  decimal = λ c. leb b'0' c && leb c b'9';
  printable = λ c. leb 32 c && leb c 126;
  lower = λ s. s;
}

read_crash :
    parse_error ascii
      (text
        "Traceback (most recent call last):\n  File \"/w/app/main.py\", line 7, in run\n    x()\n  File \"/lib/os.py\", line 9, in open\nFileNotFoundError: no 0x1f at line 3\n")
      crash
      (text "/w/")
    ≡ some (record {
      kind = crash;
      exc_type = text "FileNotFoundError";
      location = text "app/main.py:run";
      normalized_msg = text "no 0xADDR at line N";
    })
unfolding parse_error text
read_crash = refl

read_pytest :
    parse_error ascii
      (text
        "E   TypeError: bad\nFAILED tests/test_a.py::test_x - Type...\n1 failed, 2 passed in 0.1s")
      test
      (text "/w")
    ≡ some (record {
      kind = test;
      exc_type = text "TypeError";
      location = text "tests/test_a.py::test_x";
      normalized_msg = text "bad";
    })
unfolding parse_error text
read_pytest = refl

read_green : parse_error ascii (text "3 passed in 0.1s") test [] ≡ none
unfolding parse_error text
read_green = refl
