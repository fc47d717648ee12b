-- ===== src/Lexer/Keywords/First.antt =====
-- crates/cobol-lexer/src/token.rs: the first half of the arms of `from_keyword`.
use rust_cobol.Prelude.{List, [], ◌∷◌}
use rust_cobol.Prelude.Text.{Text, codes}
use rust_cobol.Lexer.Kinds.{TokenKind}

abbrev pub first_words : List (Text × TokenKind)
first_words =
    (codes "IDENTIFICATION", TokenKind.identification)
    ∷ (codes "ID", TokenKind.identification)
    ∷ (codes "ENVIRONMENT", TokenKind.environment)
    ∷ (codes "DATA", TokenKind.data_kw)
    ∷ (codes "PROCEDURE", TokenKind.procedure)
    ∷ (codes "DIVISION", TokenKind.division)
    ∷ (codes "SECTION", TokenKind.section)
    ∷ (codes "PROGRAM-ID", TokenKind.program_id)
    ∷ (codes "CLASS-ID", TokenKind.class_id)
    ∷ (codes "METHOD-ID", TokenKind.method_id)
    ∷ (codes "INTERFACE-ID", TokenKind.interface_id)
    ∷ (codes "FUNCTION-ID", TokenKind.function_id)
    ∷ (codes "FACTORY", TokenKind.factory_kw)
    ∷ (codes "OBJECT", TokenKind.object_kw)
    ∷ (codes "CONFIGURATION", TokenKind.configuration)
    ∷ (codes "SOURCE-COMPUTER", TokenKind.source_computer)
    ∷ (codes "OBJECT-COMPUTER", TokenKind.object_computer)
    ∷ (codes "SPECIAL-NAMES", TokenKind.special_names)
    ∷ (codes "REPOSITORY", TokenKind.repository)
    ∷ (codes "INPUT-OUTPUT", TokenKind.input_output)
    ∷ (codes "FILE-CONTROL", TokenKind.file_control)
    ∷ (codes "I-O-CONTROL", TokenKind.io_control)
    ∷ (codes "SELECT", TokenKind.select)
    ∷ (codes "ASSIGN", TokenKind.assign)
    ∷ (codes "ORGANIZATION", TokenKind.organization)
    ∷ (codes "SEQUENTIAL", TokenKind.sequential)
    ∷ (codes "INDEXED", TokenKind.indexed)
    ∷ (codes "RELATIVE", TokenKind.relative)
    ∷ (codes "ACCESS", TokenKind.access_mode)
    ∷ (codes "DYNAMIC", TokenKind.dynamic)
    ∷ (codes "RANDOM", TokenKind.random)
    ∷ (codes "RECORD-KEY", TokenKind.record_key)
    ∷ (codes "ALTERNATE", TokenKind.alternate_record_key)
    ∷ (codes "FILE-STATUS", TokenKind.file_status)
    ∷ (codes "FILE", TokenKind.file)
    ∷ (codes "WORKING-STORAGE", TokenKind.working_storage)
    ∷ (codes "LOCAL-STORAGE", TokenKind.local_storage)
    ∷ (codes "LINKAGE", TokenKind.linkage)
    ∷ (codes "COMMUNICATION", TokenKind.communication)
    ∷ (codes "REPORT", TokenKind.report)
    ∷ (codes "REPORTING", TokenKind.report)
    ∷ (codes "SCREEN", TokenKind.screen)
    ∷ (codes "FD", TokenKind.fd)
    ∷ (codes "SD", TokenKind.sd)
    ∷ (codes "PIC", TokenKind.pic)
    ∷ (codes "PICTURE", TokenKind.pic)
    ∷ (codes "VALUE", TokenKind.value)
    ∷ (codes "VALUES", TokenKind.values)
    ∷ (codes "REDEFINES", TokenKind.redefines)
    ∷ (codes "RENAMES", TokenKind.renames)
    ∷ (codes "OCCURS", TokenKind.occurs)
    ∷ (codes "TIMES", TokenKind.times)
    ∷ (codes "DEPENDING", TokenKind.depending)
    ∷ (codes "ASCENDING", TokenKind.ascending)
    ∷ (codes "DESCENDING", TokenKind.descending)
    ∷ (codes "KEY", TokenKind.key)
    ∷ (codes "USAGE", TokenKind.usage)
    ∷ (codes "DISPLAY", TokenKind.display)
    ∷ (codes "COMPUTATIONAL", TokenKind.computational)
    ∷ (codes "COMP", TokenKind.comp)
    ∷ (codes "COMP-1", TokenKind.comp_1)
    ∷ (codes "COMP-2", TokenKind.comp_2)
    ∷ (codes "COMP-3", TokenKind.comp_3)
    ∷ (codes "COMP-4", TokenKind.comp_4)
    ∷ (codes "COMP-5", TokenKind.comp_5)
    ∷ (codes "BINARY", TokenKind.binary)
    ∷ (codes "PACKED-DECIMAL", TokenKind.packed_decimal)
    ∷ (codes "INDEX", TokenKind.index)
    ∷ (codes "POINTER", TokenKind.pointer)
    ∷ (codes "FUNCTION-POINTER", TokenKind.function_pointer)
    ∷ (codes "SIGN", TokenKind.sign_kw)
    ∷ (codes "LEADING", TokenKind.leading)
    ∷ (codes "TRAILING", TokenKind.trailing)
    ∷ (codes "SEPARATE", TokenKind.separate)
    ∷ (codes "JUSTIFIED", TokenKind.justified)
    ∷ (codes "JUST", TokenKind.justified)
    ∷ (codes "BLANK", TokenKind.blank)
    ∷ (codes "WHEN", TokenKind.when)
    ∷ (codes "ZERO", TokenKind.zero)
    ∷ (codes "ZEROS", TokenKind.zero)
    ∷ (codes "ZEROES", TokenKind.zero)
    ∷ (codes "SPACE", TokenKind.space)
    ∷ (codes "SPACES", TokenKind.space)
    ∷ (codes "HIGH-VALUE", TokenKind.high_value)
    ∷ (codes "HIGH-VALUES", TokenKind.high_value)
    ∷ (codes "LOW-VALUE", TokenKind.low_value)
    ∷ (codes "LOW-VALUES", TokenKind.low_value)
    ∷ (codes "QUOTE", TokenKind.quote)
    ∷ (codes "QUOTES", TokenKind.quote)
    ∷ (codes "ALL", TokenKind.all)
    ∷ (codes "FILLER", TokenKind.filler)
    ∷ (codes "EXTERNAL", TokenKind.external)
    ∷ (codes "GLOBAL", TokenKind.global)
    ∷ (codes "GROUP-USAGE", TokenKind.group_usage)
    ∷ (codes "NATIONAL", TokenKind.national)
    ∷ (codes "TYPEDEF", TokenKind.typedef)
    ∷ (codes "MOVE", TokenKind.move)
    ∷ (codes "TO", TokenKind.to)
    ∷ (codes "ADD", TokenKind.add)
    ∷ (codes "SUBTRACT", TokenKind.subtract)
    ∷ (codes "MULTIPLY", TokenKind.multiply)
    ∷ (codes "DIVIDE", TokenKind.divide)
    ∷ (codes "COMPUTE", TokenKind.compute)
    ∷ (codes "GIVING", TokenKind.giving)
    ∷ (codes "REMAINDER", TokenKind.remainder)
    ∷ (codes "ROUNDED", TokenKind.rounded)
    ∷ (codes "CORRESPONDING", TokenKind.corresponding)
    ∷ (codes "CORR", TokenKind.corresponding)
    ∷ (codes "IF", TokenKind.if_kw)
    ∷ (codes "THEN", TokenKind.then_kw)
    ∷ (codes "ELSE", TokenKind.else_kw)
    ∷ (codes "END-IF", TokenKind.end_if)
    ∷ (codes "EVALUATE", TokenKind.evaluate)
    ∷ (codes "ALSO", TokenKind.also)
    ∷ (codes "TRUE", TokenKind.true_kw)
    ∷ (codes "FALSE", TokenKind.false_kw)
    ∷ (codes "OTHER", TokenKind.other)
    ∷ (codes "END-EVALUATE", TokenKind.end_evaluate)
    ∷ (codes "PERFORM", TokenKind.perform)
    ∷ (codes "THRU", TokenKind.thru)
    ∷ (codes "THROUGH", TokenKind.thru)
    ∷ (codes "VARYING", TokenKind.varying)
    ∷ (codes "UNTIL", TokenKind.until)
    ∷ (codes "AFTER", TokenKind.after)
    ∷ (codes "END-PERFORM", TokenKind.end_perform)
    ∷ (codes "GO", TokenKind.go)
    ∷ (codes "GO-TO", TokenKind.go_to)
    ∷ (codes "GOTO", TokenKind.go_to)
    ∷ (codes "CALL", TokenKind.call)
    ∷ (codes "USING", TokenKind.using)
    ∷ (codes "BY", TokenKind.by)
    ∷ (codes "REFERENCE", TokenKind.reference)
    ∷ (codes "CONTENT", TokenKind.content)
    ∷ (codes "RETURNING", TokenKind.returning)
    ∷ (codes "END-CALL", TokenKind.end_call)
    ∷ (codes "CANCEL", TokenKind.cancel)
    ∷ (codes "ALTER", TokenKind.alter)
    ∷ (codes "STOP", TokenKind.stop)
    ∷ (codes "RUN", TokenKind.run)
    ∷ (codes "ACCEPT", TokenKind.accept)
    ∷ (codes "FROM", TokenKind.from)
    ∷ (codes "END-ACCEPT", TokenKind.end_accept)
    ∷ (codes "END-DISPLAY", TokenKind.end_display)
    ∷ (codes "OPEN", TokenKind.open_kw)
    ∷ (codes "CLOSE", TokenKind.close)
    ∷ (codes "READ", TokenKind.read)
    ∷ (codes "WRITE", TokenKind.write)
    ∷ (codes "REWRITE", TokenKind.rewrite)
    ∷ (codes "DELETE", TokenKind.delete)
    ∷ (codes "START", TokenKind.start)
    ∷ (codes "RETURN", TokenKind.return)
    ∷ []
