-- ===== src/Compilers/Embedded.antt =====
-- internal/sandbox/templates: the files that `go:embed` puts into the program.
use cars.Base.{List, [], ◌∷◌, Text, txt}

-- The name of every file of the directory `templates` with its text.
abbrev pub embedded_templates : List (Text × Text)
embedded_templates =
    (
      txt "templates/c.txt",
      txt
          "#include <stdio.h>\r\n\r\nint main() {\r\n   printf(\"Hello, World!\");\r\n   return 0;\r\n}\r\n",
    )
    ∷ (
      txt "templates/cpp.txt",
      txt
          "#include <iostream>\r\n\r\nint main() {\r\n    std::cout << \"Hello, World!\";\r\n    return 0;\r\n}\r\n",
    )
    ∷ (
      txt "templates/csharp.txt",
      txt
          "using System;\r\n\r\nnamespace Solution\r\n{\r\n    internal class Solution\r\n    {\r\n        static void Main(string[] args)\r\n        {\r\n            Console.WriteLine(\"Hello, World!\");\r\n        }\r\n    }\r\n}\r\n",
    )
    ∷ (
      txt "templates/fsharp.txt",
      txt
          "// For more information see https://aka.ms/fsharp-console-apps\r\nprintfn \"Hello, World!\"\r\n",
    )
    ∷ (
      txt "templates/go.txt",
      txt
          "package main\r\n\r\nimport \"fmt\"\r\n\r\nfunc main() {\r\n    fmt.Println(\"Hello, World!\")\r\n}\r\n",
    )
    ∷ (txt "templates/haskell.txt", txt "main = putStrLn \"Hello, World!\"\r\n")
    ∷ (
      txt "templates/java.txt",
      txt
          "// Keep the class name as Solution otherwise the project will not compile.\r\npublic class Solution {\r\n      public static void main(String[] args) {\r\n            System.out.println(\"Hello, World!\");\r\n      }\r\n}\r\n",
    )
    ∷ (
      txt "templates/kotlin.txt",
      txt "fun main(args : Array<String>) {\r\n    println(\"Hello, World!\")\r\n}\r\n",
    )
    ∷ (txt "templates/node.txt", txt "console.log(\"Hello, World!\");\r\n")
    ∷ (txt "templates/php.txt", txt "<?php\r\necho \"Hello World!\";\r\n?>\r\n")
    ∷ (txt "templates/python.txt", txt "print(\"Hello, World!\")\r\n")
    ∷ (txt "templates/python2.txt", txt "print \"Hello, World!\"\r\n")
    ∷ (txt "templates/ruby.txt", txt "puts \"Hello, World!\"\r\n")
    ∷ (txt "templates/rust.txt", txt "fn main() {\r\n    println!(\"Hello, World!\");\r\n}\r\n")
    ∷ (
      txt "templates/scala.txt",
      txt
          "object Solution {\r\n    def main(args: Array[String]) = {\r\n        println(\"Hello, World!\")\r\n    }\r\n}\r\n",
    )
    ∷ []
